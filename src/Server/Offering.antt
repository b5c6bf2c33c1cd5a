-- ===== src/Server/Offering.antt =====
-- An offer of an address that the client may then ask for.
use internet_applications.Base.{
  ℕ, ◌^◌, ◌≤◌, ◌<◌, ◌≡◌, refl, ap, sym, ◌∙◌, inl, inr, true, false, Bool-cases, Option-cases,
  Option, none, some, List, [], ◌∷◌, Bytes, ok, is_positive, is_negative, ℤ, pos, arith,
}
use internet_applications.Words.{htonl, ntohl, htonl-lt, htonl-htonl}
use internet_applications.Protocol
use internet_applications.Protocol.{dhcpoffer, ip_address_pool_amount}
use internet_applications.Options.{get_dhcp_option}
use internet_applications.Lease.{Lease, Leases, same_mac, has_addr, check_ipaddr, allocate_ip}
use internet_applications.Lease.Table.{
  allocate_ip-num, Unique, lookup, find_mac, lookup-not_has_addr, lookup-has_addr,
}
use internet_applications.Lease.Lookup.{stamped}
use internet_applications.Lease.Allocate.{
  InRange, Covers, allocate_ip_known, allocate_ip_new, allocate_ip_total,
}
use internet_applications.Lease.Check.{IsFree, check_ipaddr_iff}
use internet_applications.Reply.{
  Server, Env, set_yiaddr, load_value, requested_ip, allocate, choose_yiaddr,
}
use internet_applications.Server.Pool.{IsPooled, allocate_ip-IsPooled}

pub find_mac-lookup :
    (mac : Bytes) (ls : List Lease) (l : Lease)
    → Unique ls
    → find_mac mac ls ≡ some l
    → (lookup l.addr ls ≡ some l) × (same_mac l.chaddr mac ≡ true)
find_mac-lookup mac [] l u h = cc
find_mac-lookup mac (x ∷ xs) l u h = elim (Bool-cases (same_mac x.chaddr mac)) [
  | inl same ↦
      let e : x ≡ l = ground arith in
      let there : lookup x.addr (x ∷ xs) ≡ some x = ground arith in
      (
        ap (λ y. lookup y.addr (x ∷ xs)) (sym e) ∙ there ∙ ap some e,
        ap (λ y. same_mac y.chaddr mac) (sym e) ∙ same,
      )
  | inr other ↦
      let (there, same) = find_mac-lookup mac xs l u.1 (ground arith) in
      (ground (arith, lookup-has_addr l.addr xs l there, u.0), same)
]

-- The server `t` offers an address that its table lets the client have, from the time `now` on.
pub record Offers (now : ℕ) (s t : Server) : Type 0 where
  pub leases : IsPooled t.leases
  pub same : t ≡ record s {
    leases = t.leases;
    dhcp_recv = record s.dhcp_recv { yiaddr = t.dhcp_recv.yiaddr };
  }
  pub word : t.dhcp_recv.yiaddr < 2 ^ 32
  pub count : t.leases.num_of_lease ≡ s.leases.num_of_lease
  pub still : (b : ℕ) → lookup b s.leases.lease_head ≡ none → lookup b t.leases.lease_head ≡ none
  pub before : IsFree now s.leases (ntohl t.dhcp_recv.yiaddr) s.dhcp_recv.chaddr
  pub free :
      (later : ℕ)
      → now ≤ later
      → IsFree later t.leases (ntohl t.dhcp_recv.yiaddr) s.dhcp_recv.chaddr

module _ (e : Env) (s : Server) (h : IsPooled s.leases) where
  requested-Offers :
      (ip : ℕ)
      → ip < 2 ^ 32
      → is_positive (check_ipaddr e.check_time s.leases ip s.dhcp_recv.chaddr) ≡ true
      → Offers e.check_time s (set_yiaddr s ip)
  requested-Offers ip word good =
      let now = (check_ipaddr_iff e.check_time s.leases ip s.dhcp_recv.chaddr).0 good in
      record {
        leases = h;
        same = refl;
        word = word;
        count = refl;
        still = λ b nothing. nothing;
        before = now;
        free = λ later after. record {
          pooled = now.pooled;
          released = λ l there fresh. now.released l there (omega arith);
        };
      }

  unused-Offers :
      (a : ℕ)
      → InRange a
      → has_addr a s.leases.lease_head ≡ false
      → Offers e.check_time s (set_yiaddr s (htonl a))
  unused-Offers a inside free =
      let host : ntohl (htonl a) ≡ a = htonl-htonl a (omega (arith, inside.1)) in
      record {
        leases = h;
        same = refl;
        word = htonl-lt a;
        count = refl;
        still = λ b nothing. nothing;
        before = record {
          pooled = rw host inside;
          released = λ l there fresh.
              let nothing =
                ap (λ b. lookup b s.leases.lease_head) host
                ∙ lookup-not_has_addr a s.leases.lease_head free in
              absurd (cc (nothing));
        };
        free = λ later after. record {
          pooled = rw host inside;
          released = λ l there fresh.
              let nothing =
                ap (λ b. lookup b s.leases.lease_head) host
                ∙ lookup-not_has_addr a s.leases.lease_head free in
              absurd (cc (nothing));
        };
      }

  held-Offers :
      (l : Lease) (t : Leases)
      → find_mac s.dhcp_recv.chaddr s.leases.lease_head ≡ some l
      → IsPooled t
      → lookup l.addr t.lease_head ≡ some (stamped e.stamp_time l)
      → t.num_of_lease ≡ s.leases.num_of_lease
      → ((b : ℕ) → lookup b s.leases.lease_head ≡ none → lookup b t.lease_head ≡ none)
      → Offers e.check_time s (set_yiaddr (record s { leases = t }) (htonl l.addr))
  held-Offers l t known pool there count still =
      let (old, mine) =
        find_mac-lookup s.dhcp_recv.chaddr s.leases.lease_head l h.table.unique known in
      let inside = h.pooled l.addr l old in
      let host : ntohl (htonl l.addr) ≡ l.addr = htonl-htonl l.addr (omega (arith, inside.1)) in
      record {
        leases = pool;
        same = refl;
        word = htonl-lt l.addr;
        count = count;
        still = still;
        before = record {
          pooled = rw host inside;
          released = λ m found fresh.
              let same : some m ≡ some l =
                sym found ∙ ap (λ b. lookup b s.leases.lease_head) host ∙ old in
              let e' : m ≡ l = cc in ap (λ x. same_mac x.chaddr s.dhcp_recv.chaddr) e' ∙ mine;
        };
        free = λ later after. record {
          pooled = rw host inside;
          released = λ m found fresh.
              let same : some m ≡ some (stamped e.stamp_time l) =
                sym found ∙ ap (λ b. lookup b t.lease_head) host ∙ there in
              let e' : m ≡ stamped e.stamp_time l = cc in
              ap (λ x. same_mac x.chaddr s.dhcp_recv.chaddr) e' ∙ mine;
        };
      }

  -- The draws of every seed cover the pool, and a client that is not known finds room.
  module _ (covers : Covers e.random)
      (room : find_mac s.dhcp_recv.chaddr s.leases.lease_head ≡ none
        → s.leases.num_of_lease < ip_address_pool_amount) where
    -- The allocation succeeds, and what it gives may be offered.
    allocate-Offers :
        (t : Leases) × (res : ℤ) × (a : ℕ) × (allocate_ip e.random e.stamp_time e.seed_time s.leases
            s.dhcp_recv.chaddr
          ≡ ok (t, res, some a))
        × (is_negative res ≡ false)
        × Offers e.check_time s (set_yiaddr (record s { leases = t }) (htonl a))
    allocate-Offers = elim (Option-cases (find_mac s.dhcp_recv.chaddr s.leases.lease_head)) [
      | inr (l, known) ↦
          let (t, run, looks) =
            allocate_ip_known e.random e.stamp_time e.seed_time s.leases s.dhcp_recv.chaddr l
              h.table known in
          let pool =
            allocate_ip-IsPooled e.random e.stamp_time e.seed_time s.leases s.dhcp_recv.chaddr h t
              (pos 0) (some l.addr) run in
          let (old, mine) =
            find_mac-lookup s.dhcp_recv.chaddr s.leases.lease_head l h.table.unique known in
          let there : lookup l.addr t.lease_head ≡ some (stamped e.stamp_time l) =
            ground (arith, looks l.addr, old) in
          (
            t,
            pos 0,
            l.addr,
            run,
            refl,
            held-Offers l t known pool there
                (allocate_ip-num e.random e.stamp_time e.seed_time s.leases s.dhcp_recv.chaddr t
                  (pos 0) (some l.addr) run)
                (λ b nothing. ground (arith, looks b, nothing)),
          )
      | inl unknown ↦
          let (t, res, new_ip, run, given) =
            allocate_ip_total e.random e.stamp_time e.seed_time s.leases s.dhcp_recv.chaddr covers
              h.table in
          let (same, out) =
            allocate_ip_new e.random e.stamp_time e.seed_time s.leases s.dhcp_recv.chaddr unknown t
              res new_ip run in
          elim out [
            | inl (full, failed, nothing) ↦ absurd (omega (arith, room unknown))
            | inr (space, fine, (a, there, inside, free)) ↦ (
              s.leases,
              res,
              a,
              run
                  ∙ ap (λ (x : Leases). ok (x, res, new_ip)) same
                  ∙ ap (λ (x : Option ℕ). ok (s.leases, res, x)) there,
              ap is_negative fine,
              unused-Offers a inside free,
            )
          ]
    ]

    -- An offer is made to every client that asks for an address, on a table of leases in the pool.
    pub choose_yiaddr-Offers :
        (ip p : ℕ)
        → get_dhcp_option s.dhcp_recv.options Protocol.option_requested_ip none ≡ ok (4, some p)
        → load_value s.dhcp_recv.options (some p) ≡ ok ip
        → ip < 2 ^ 32
        → (t : Server) × (choose_yiaddr e dhcpoffer s ≡ ok (t, true)) × Offers e.check_time s t
    unfolding choose_yiaddr requested_ip allocate
    choose_yiaddr-Offers ip p got loaded word =
        elim (Bool-cases (is_positive (check_ipaddr e.check_time s.leases ip s.dhcp_recv.chaddr))) [
          | inl good ↦ (set_yiaddr s ip, rw (got, loaded, good), requested-Offers ip word good)
          | inr bad ↦
              let (t, res, a, run, fine, offers) = allocate-Offers in
              (
                set_yiaddr (record s { leases = t }) (htonl a),
                rw (got, loaded, bad, run, fine),
                offers,
              )
        ]
