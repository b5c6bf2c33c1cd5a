-- ===== src/Lease/Lookup.antt =====
-- Each operation on the lease list as an operation on the map from addresses to leases.
use internet_applications.Base.{
  ℕ, ◌≡◌, ◌≢◌, refl, true, Option, none, some, List, [], ◌∷◌, ◌++◌, Bytes, arith, ok, ◌==◌,
  if◌then◌else◌, Option-cases, Bool-cases, inl, inr, take, ◌%◌, ◌^◌, ℤ, Run-cases, same_prefix-take,
}
use internet_applications.Words.{ntohl}
use internet_applications.Protocol.{hardware_address_length}
use internet_applications.Lease.{
  Lease, Leases, Random, same_mac, has_addr, allocate_ip, add_lease, reuse_lease, stamp_lease, draw,
}
use internet_applications.Lease.Table.{Unique, IsTable, lookup, lookup-not_has_addr, find_mac}

abbrev pub stamped : ℕ → Lease → Lease
stamped now l = record l { time_stamp = now }

abbrev pub fresh : ℕ → ℕ → Bytes → Lease
fresh now a mac = record { time_stamp = now; addr = a; chaddr = take hardware_address_length mac }

pub same_mac-take : (mac : Bytes) → same_mac (take hardware_address_length mac) mac ≡ true
unfolding same_mac
same_mac-take mac = same_prefix-take hardware_address_length mac

lookup-snoc :
    (b : ℕ) (ls : List Lease) (l : Lease)
    → lookup b (ls ++ l ∷ [])
      ≡ elim (lookup b ls) [ some m ↦ some m | none ↦ if l.addr == b then some l else none ]
lookup-snoc b [] l = refl
lookup-snoc b (x ∷ xs) l = ground (arith, lookup-snoc b xs l)

-- What `add_lease` leaves at its own address: the old lease with a new stamp, or a new lease.
abbrev pub added : ℕ → ℕ → Bytes → Option Lease → Lease
added now a mac none = fresh now a mac
added now a mac (some l) = stamped now l

lookup-stamp_lease :
    (now a b : ℕ) (ls ls' : List Lease)
    → stamp_lease now a ls ≡ some ls'
    → lookup b ls' ≡ (
        if a == b
        then elim (lookup b ls) [ some l ↦ some (stamped now l) | none ↦ none ]
        else lookup b ls)
unfolding stamp_lease
lookup-stamp_lease now a b [] ls' h = cc
lookup-stamp_lease now a b (l ∷ ls) ls' h = elim (Option-cases (stamp_lease now a ls)) [
  | inl e ↦ ground arith
  | inr (ls₁, e) ↦ ground (arith, lookup-stamp_lease now a b ls ls₁ e)
]

pub stamp_lease-some :
    (now a : ℕ) (ls ls' : List Lease) → stamp_lease now a ls ≡ some ls' → lookup a ls ≢ none
unfolding stamp_lease
stamp_lease-some now a [] ls' h = cc
stamp_lease-some now a (l ∷ ls) ls' h = elim (Option-cases (stamp_lease now a ls)) [
  | inl e ↦ ground arith
  | inr (ls₁, e) ↦ ground (arith, stamp_lease-some now a ls ls₁ e)
]

stamp_lease-none : (now a : ℕ) (ls : List Lease) → stamp_lease now a ls ≡ none → lookup a ls ≡ none
unfolding stamp_lease
stamp_lease-none now a [] h = refl
stamp_lease-none now a (l ∷ ls) h = ground (arith, stamp_lease-none now a ls)

reuse_lease-has_addr :
    (now a : ℕ) (mac : Bytes) (ls ls' : List Lease)
    → reuse_lease now mac ls ≡ some (a, ls')
    → has_addr a ls ≡ true
unfolding reuse_lease
reuse_lease-has_addr now a mac [] ls' h = cc
reuse_lease-has_addr now a mac (l ∷ ls) ls' h = elim (Option-cases (reuse_lease now mac ls)) [
  | inl e ↦ ground arith
  | inr ((a₁, ls₁), e) ↦ ground (arith, reuse_lease-has_addr now a₁ mac ls ls₁ e)
]

-- `add_lease` writes the lease of its address, keeping the MAC address of a lease that is there,
-- and no other lease changes.
pub lookup-add_lease :
    (now : ℕ) (t : Leases) (new_ip : ℕ) (mac : Bytes) (b : ℕ)
    → lookup b (add_lease now t new_ip mac).lease_head ≡ (
        if ntohl new_ip == b
        then some (added now b mac (lookup b t.lease_head))
        else lookup b t.lease_head)
unfolding add_lease
lookup-add_lease now t new_ip mac b =
    elim (Option-cases (stamp_lease now (ntohl new_ip) t.lease_head)) [
      | inl e ↦ ground (
        arith,
        lookup-snoc b t.lease_head (fresh now (ntohl new_ip) mac),
        stamp_lease-none now (ntohl new_ip) t.lease_head e,
      )
      | inr (ls, e) ↦ ground (
        arith,
        lookup-stamp_lease now (ntohl new_ip) b t.lease_head ls e,
        stamp_lease-some now (ntohl new_ip) t.lease_head ls e,
      )
    ]

pub reuse_lease-find_mac :
    (now : ℕ) (mac : Bytes) (ls : List Lease) (l : Lease)
    → find_mac mac ls ≡ some l
    → (ls' : List Lease) × (reuse_lease now mac ls ≡ some (l.addr, ls'))
unfolding reuse_lease
reuse_lease-find_mac now mac [] l h = cc
reuse_lease-find_mac now mac (x ∷ xs) l h = elim (Bool-cases (same_mac x.chaddr mac)) [
  | inl same ↦ (record x { time_stamp = now } ∷ xs, ground arith)
  | inr other ↦
      let (ls', e) = reuse_lease-find_mac now mac xs l (ground arith) in
      (x ∷ ls', ground (arith, e))
]

pub reuse_lease-none :
    (now : ℕ) (mac : Bytes) (ls : List Lease)
    → find_mac mac ls ≡ none
    → reuse_lease now mac ls ≡ none
unfolding reuse_lease
reuse_lease-none now mac [] h = refl
reuse_lease-none now mac (x ∷ xs) h = ground (arith, reuse_lease-none now mac xs)

pub lookup-reuse_lease :
    (now a b : ℕ) (mac : Bytes) (ls ls' : List Lease)
    → Unique ls
    → reuse_lease now mac ls ≡ some (a, ls')
    → lookup b ls' ≡ (
        if a == b
        then elim (lookup b ls) [ some l ↦ some (stamped now l) | none ↦ none ]
        else lookup b ls)
unfolding reuse_lease
lookup-reuse_lease now a b mac [] ls' u h = cc
lookup-reuse_lease now a b mac (l ∷ ls) ls' u h = elim (Option-cases (reuse_lease now mac ls)) [
  | inl e ↦ ground (arith, lookup-not_has_addr l.addr ls u.0)
  | inr ((a₁, ls₁), e) ↦ ground (
    arith,
    lookup-reuse_lease now a₁ b mac ls ls₁ u.1 e,
    reuse_lease-has_addr now a₁ mac ls ls₁ e,
  )
]

-- After an allocation every lease has the address of a lease before.
pub lookup-allocate_ip :
    (r : Random) (now seed_time : ℕ) (t : Leases) (mac : Bytes)
    → IsTable t
    → (t' : Leases) (res : ℤ) (a : Option ℕ) → allocate_ip r now seed_time t mac ≡ ok (t', res, a)
    → (b : ℕ) (l : Lease) → lookup b t'.lease_head ≡ some l
    → (m : Lease) × (lookup b t.lease_head ≡ some m)
unfolding allocate_ip
lookup-allocate_ip r now seed_time t mac h t' res a run b l there =
    elim (Option-cases (lookup b t.lease_head)) [
      | inr (m, e) ↦ (m, e)
      | inl e ↦ absurd (elim (Option-cases (reuse_lease now mac t.lease_head)) [
        | inr ((x, ls), u) ↦
            ground (arith, lookup-reuse_lease now x b mac t.lease_head ls h.unique u)
        | inl u ↦ elim (Run-cases (draw r.fuel (r.rand (seed_time % 2 ^ 32)) 0 t.lease_head)) [
          | inl (x, d) ↦ ground arith
          | inr (inl d) ↦ ground arith
          | inr (inr d) ↦ ground arith
        ]
      ])
    ]
