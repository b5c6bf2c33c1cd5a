-- ===== src/Reply/Offer.antt =====
-- The address that `construct_dhcp_packet` puts into an offer.
use internet_applications.Base.{
  ℕ, ◌≡◌, refl, ap, ◌⊎◌, inl, inr, Bool, true, false, Bool-cases, Option-cases, Option, none, some,
  Run, ok, ◌>>=◌, or_fault, ◌==◌, if◌then◌else◌, Ensures, any-Ensures, bind-Ensures, Ensures-elim,
  is_positive, is_negative, ==→eq, arith,
}
use internet_applications.Words.{htonl, ntohl}
use internet_applications.Protocol
use internet_applications.Protocol.{dhcpnak, dhcpoffer}
use internet_applications.Options.{get_dhcp_option}
use internet_applications.Lease.{Lease, has_addr, check_ipaddr, allocate_ip}
use internet_applications.Lease.Table.{IsTable, find_mac}
use internet_applications.Lease.Allocate.{InRange, allocate_ip_known, allocate_ip_new}
use internet_applications.Lease.Check.{IsFree, check_ipaddr_iff}
use internet_applications.Reply.{
  Server, Env, set_yiaddr, load_value, requested_ip, allocate, choose_yiaddr,
}

-- The client asks for an address, in network order: option 50, of four bytes.
abbrev pub Requests : Server → (ip : ℕ) → Type 0
Requests s ip =
    (value : Option ℕ) × (get_dhcp_option s.dhcp_recv.options Protocol.option_requested_ip none
      ≡ ok (4, value))
    × (load_value s.dhcp_recv.options value ≡ ok ip)

-- No address that the client asks for may be granted.
abbrev pub Unwelcome : Env → Server → Type 0
Unwelcome e s =
    (ip : ℕ) → Requests s ip → ¬ IsFree e.check_time s.leases (ntohl ip) s.dhcp_recv.chaddr

-- The address that is offered, in network order: the requested one if it may be granted, else the one
-- that the client holds, and where it holds none, one of the pool that nobody holds.
pub data MayOffer (e : Env) (s : Server) : ℕ → Type 0 where
  requested :
      (ip : ℕ)
      → Requests s ip
      → IsFree e.check_time s.leases (ntohl ip) s.dhcp_recv.chaddr
      → MayOffer e s ip
  held :
      (l : Lease)
      → Unwelcome e s
      → find_mac s.dhcp_recv.chaddr s.leases.lease_head ≡ some l
      → MayOffer e s (htonl l.addr)
  unused :
      (a : ℕ)
      → Unwelcome e s
      → find_mac s.dhcp_recv.chaddr s.leases.lease_head ≡ none
      → InRange a
      → has_addr a s.leases.lease_head ≡ false
      → MayOffer e s (htonl a)

module _ (e : Env) (s : Server) where
  -- What is known of the address that a call returns.
  abbrev Wanted : Option ℕ → Type 0
  Wanted none = Unwelcome e s
  Wanted (some ip) = MayOffer e s ip

  -- The address that fails the check is the one that is asked for.
  refused :
      (n ip ip' : ℕ) (value v : Option ℕ)
      → (n == 4) ≡ true
      → get_dhcp_option s.dhcp_recv.options Protocol.option_requested_ip none ≡ ok (n, value)
      → load_value s.dhcp_recv.options value ≡ ok ip
      → is_positive (check_ipaddr e.check_time s.leases ip s.dhcp_recv.chaddr) ≡ false
      → get_dhcp_option s.dhcp_recv.options Protocol.option_requested_ip none ≡ ok (4, v)
      → load_value s.dhcp_recv.options v ≡ ok ip'
      → ¬ IsFree e.check_time s.leases (ntohl ip') s.dhcp_recv.chaddr
  refused n ip ip' value v four got loaded bad got' loaded' free =
      let same : value ≡ v = cc in
      let e' : ip' ≡ ip = cc in
      let good = (check_ipaddr_iff e.check_time s.leases ip' s.dhcp_recv.chaddr).1 free in
      absurd (cc (good, bad))

  requested_ip-Wanted : Ensures (λ r. Wanted r.0) (requested_ip e.check_time s none)
  unfolding requested_ip
  requested_ip-Wanted =
      any-Ensures _ (get_dhcp_option s.dhcp_recv.options Protocol.option_requested_ip none) _
        λ (n, value) got. elim (Bool-cases (n == 4)) [
          | inr other ↦ rw other (λ ip (v, got', loaded) free. absurd (ground arith))
          | inl four ↦ rw four (
              any-Ensures _ (load_value s.dhcp_recv.options value) _ λ ip loaded.
                elim (Bool-cases
                  (is_positive (check_ipaddr e.check_time s.leases ip s.dhcp_recv.chaddr))) [
                    | inr bad ↦ rw bad (λ ip' (v, got', loaded') free.
                        refused n ip ip' value v four got loaded bad got' loaded' free)
                    | inl good ↦ rw good (
                        requested ip (value, rw (← ==→eq n 4 four) got, loaded)
                          ((check_ipaddr_iff e.check_time s.leases ip s.dhcp_recv.chaddr).0 good))
                  ])
        ]

  -- The allocation fails, or gives such an address.
  abbrev Given : Bool → Option ℕ → Type 0
  Given failed a = (failed ≡ true) ⊎ ((x : ℕ) × (a ≡ some x) × MayOffer e s (htonl x))

  allocate-Given : Unwelcome e s → IsTable s.leases → Ensures (λ r. Given r.1 r.2) (allocate e s)
  unfolding allocate
  allocate-Given bad h =
      any-Ensures _ (allocate_ip e.random e.stamp_time e.seed_time s.leases s.dhcp_recv.chaddr) _
        λ (leases, res, ip) run.
          elim (Option-cases (find_mac s.dhcp_recv.chaddr s.leases.lease_head)) [
            | inr (l, known) ↦
                let (leases', run', rest) =
                  allocate_ip_known e.random e.stamp_time e.seed_time s.leases s.dhcp_recv.chaddr l
                    h known in
                let same : ip ≡ some l.addr = cc in inr (l.addr, same, held l bad known)
            | inl unknown ↦
                let out =
                  allocate_ip_new e.random e.stamp_time e.seed_time s.leases s.dhcp_recv.chaddr
                    unknown leases res ip run in
                elim out.1 [
                  | inl (full, failed, nothing) ↦ inl (ap is_negative failed)
                  | inr (room, fine, (a, there, inside, free)) ↦
                      inr (a, there, unused a bad unknown inside free)
                ]
          ]

  -- What an offer does with the address.
  abbrev offered : Option ℕ → Run (Server × Bool)
  offered (some ip) = ok (set_yiaddr s ip, true)
  offered none = do
    (s', failed, offer_ip) ← allocate e s
    if failed
        then ok (s', false)
        else (or_fault offer_ip >>= λ a. ok (set_yiaddr s' (htonl a), true))

  abbrev Chosen : Server × Bool → Type 0
  Chosen r = (r.1 ≡ false) ⊎ MayOffer e s r.0.dhcp_recv.yiaddr

  offered-Chosen :
      (wanted : Option ℕ) → Wanted wanted → IsTable s.leases → Ensures Chosen (offered wanted)
  offered-Chosen (some ip) may h = inr may
  offered-Chosen none may h =
      bind-Ensures (λ r. Given r.1 r.2) Chosen (allocate e s) _ (allocate-Given may h)
        λ (s', failed, offer_ip) run given. elim (Bool-cases failed) [
          | inl yes' ↦ rw yes' (inl refl)
          | inr no' ↦
              rw no'
                (elim given [ inl bad ↦ absurd (cc) | inr (a, there, may') ↦ rw there (inr may') ])
        ]

  choose_yiaddr-Chosen : IsTable s.leases → Ensures Chosen (choose_yiaddr e dhcpoffer s)
  unfolding choose_yiaddr
  choose_yiaddr-Chosen h =
      bind-Ensures (λ r. Wanted r.0) Chosen (requested_ip e.check_time s none) _ requested_ip-Wanted
        λ (wanted, value) asked may. offered-Chosen wanted may h

  -- On a well-formed table, an address that is chosen for an offer is the one of option 50 if it has four
  -- bytes and may be granted; else the one that the client holds; and where it holds none, one of the pool
  -- that nobody holds.
  pub choose_yiaddr-MayOffer :
      (t : Server)
      → IsTable s.leases
      → choose_yiaddr e dhcpoffer s ≡ ok (t, true)
      → MayOffer e s t.dhcp_recv.yiaddr
  choose_yiaddr-MayOffer t h run =
      elim (Ensures-elim Chosen (choose_yiaddr e dhcpoffer s) (choose_yiaddr-Chosen h) run) [
        | inl bad ↦ absurd (cc)
        | inr may ↦ may
      ]
