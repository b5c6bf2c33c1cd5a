-- ===== src/Reply/Renewal.antt =====
-- The address that `construct_dhcp_packet` acknowledges to a client that has one.
use internet_applications.Base.{
  ℕ, Bool, true, false, ◌⊎◌, bind-Ensures, ◌∙◌, ◌≡◌, ◌≢◌, refl, sym, inl, inr, Option, none, some,
  Run, ok, ◌>>=◌, or_fault, ◌==◌, ne→==, if◌then◌else◌, Ensures, any-Ensures, Ensures-elim,
}
use internet_applications.Words.{htonl}
use internet_applications.Protocol.{dhcpack, inaddr_any}
use internet_applications.Lease.{Lease, Leases, has_addr, allocate_ip}
use internet_applications.Lease.Table.{IsTable, lookup, find_mac}
use internet_applications.Lease.Lookup.{stamped}
use internet_applications.Lease.Allocate.{InRange, allocate_ip_known, allocate_ip_new}
use internet_applications.Reply.{Server, Env, set_yiaddr, allocate, choose_yiaddr}

module _ (e : Env) (s : Server) (bound : s.dhcp_recv.ciaddr ≢ htonl inaddr_any) where
  -- What an acknowledgement does with the address that is allocated.
  abbrev granted : Run (Server × Bool)
  granted = do
    (s', _, offer_ip) ← allocate e s
    or_fault offer_ip >>= λ a. ok (set_yiaddr s' (htonl a), true)

  choose_yiaddr-granted : choose_yiaddr e dhcpack s ≡ granted
  unfolding choose_yiaddr
  choose_yiaddr-granted = rw (ne→== s.dhcp_recv.ciaddr (htonl inaddr_any) bound) refl

  -- The lease table is left alone, and the address is one of the pool that nobody holds.
  abbrev Unrecorded : Server × Bool → Type 0
  Unrecorded r =
      (r.0.leases ≡ s.leases)
      × (a : ℕ) × (r.0.dhcp_recv.yiaddr ≡ htonl a)
      × InRange a
      × (has_addr a s.leases.lease_head ≡ false)

  -- The same of the result of the allocation, which may also be without an address.
  abbrev Fresh : Server × Bool × Option ℕ → Type 0
  Fresh r =
      (r.0.leases ≡ s.leases)
      × ((r.2 ≡ none)
          ⊎ ((a : ℕ) × (r.2 ≡ some a) × InRange a × (has_addr a s.leases.lease_head ≡ false)))

  allocate-Fresh :
      find_mac s.dhcp_recv.chaddr s.leases.lease_head ≡ none → Ensures Fresh (allocate e s)
  unfolding allocate
  allocate-Fresh unknown =
      any-Ensures Fresh (allocate_ip e.random e.stamp_time e.seed_time s.leases s.dhcp_recv.chaddr)
        _
        λ (leases, res, ip) run.
          let out =
            allocate_ip_new e.random e.stamp_time e.seed_time s.leases s.dhcp_recv.chaddr unknown
              leases res ip run in
          (
            out.0,
            elim out.1 [
              | inl (full, failed, nothing) ↦ inl nothing
              | inr (room, fine, found) ↦ inr found
            ],
          )

  granted-Unrecorded :
      find_mac s.dhcp_recv.chaddr s.leases.lease_head ≡ none → Ensures Unrecorded granted
  granted-Unrecorded unknown =
      bind-Ensures Fresh Unrecorded (allocate e s) _ (allocate-Fresh unknown)
        λ (s', failed, ip) run (same, found). elim found [
          | inl nothing ↦ rw nothing tt
          | inr (a, there, inside, free) ↦ rw there (same, a, refl, inside, free)
        ]

  -- A client that sends its address, but of whom no lease is recorded, is acknowledged some address
  -- of the pool that nobody holds, whatever address it has, and no lease is recorded for it.
  pub choose_yiaddr_unrecorded :
      (t : Server)
      → find_mac s.dhcp_recv.chaddr s.leases.lease_head ≡ none
      → choose_yiaddr e dhcpack s ≡ ok (t, true)
      → (t.leases ≡ s.leases)
        × (a : ℕ) × (t.dhcp_recv.yiaddr ≡ htonl a)
        × InRange a
        × (has_addr a s.leases.lease_head ≡ false)
  choose_yiaddr_unrecorded t unknown run =
      Ensures-elim Unrecorded granted (granted-Unrecorded unknown) (sym choose_yiaddr-granted ∙ run)

  -- On a well-formed table, a client that sends its address and has a lease is acknowledged the
  -- address of that lease, which is stamped; no other lease changes.
  pub choose_yiaddr_renews :
      (l : Lease)
      → IsTable s.leases
      → find_mac s.dhcp_recv.chaddr s.leases.lease_head ≡ some l
      → (leases : Leases) × (choose_yiaddr e dhcpack s
          ≡ ok (set_yiaddr (record s { leases = leases }) (htonl l.addr), true))
        × ((b : ℕ)
            → lookup b leases.lease_head ≡ (
                if l.addr == b
                then elim (lookup b s.leases.lease_head) [
                  | some m ↦ some (stamped e.stamp_time m)
                  | none ↦ none
                ]
                else lookup b s.leases.lease_head))
  unfolding allocate
  choose_yiaddr_renews l h known =
      let (leases, run, rest) =
        allocate_ip_known e.random e.stamp_time e.seed_time s.leases s.dhcp_recv.chaddr l h known in
      (leases, choose_yiaddr-granted ∙ rw run refl, rest)
