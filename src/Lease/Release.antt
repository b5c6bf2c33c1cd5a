-- ===== src/Lease/Release.antt =====
-- `delete_lease` as the removal of one entry of the map from addresses to leases.
use internet_applications.Base.{
  ℕ, ◌≡◌, true, false, ◌&&◌, none, some, List, [], ◌∷◌, ◌++◌, Bytes, arith, ◌==◌, if◌then◌else◌,
  Option-cases, Bool-cases, inl, inr,
}
use internet_applications.Words.{ntohl}
use internet_applications.Lease.{
  Lease, Leases, same_mac, add_lease, delete_lease, stamp_lease, unlink_lease,
}
use internet_applications.Lease.Table.{
  Unique, IsTable, lookup, lookup-not_has_addr, lookup-has_addr,
}
use internet_applications.Lease.Lookup.{fresh, same_mac-take, stamp_lease-some}

unlink_lease-hit :
    (a : ℕ) (mac : Bytes) (ls ls' : List Lease)
    → Unique ls
    → unlink_lease a mac ls ≡ some ls'
    → (l : Lease) × (lookup a ls ≡ some l) × (same_mac l.chaddr mac ≡ true)
unfolding unlink_lease
unlink_lease-hit a mac [] ls' u h = cc
unlink_lease-hit a mac (l ∷ ls) ls' u h =
    elim (Bool-cases ((l.addr == a) && same_mac l.chaddr mac)) [
      | inl hit ↦ (l, ground arith, ground arith)
      | inr miss ↦ elim (Option-cases (unlink_lease a mac ls)) [
        | inl e ↦ absurd (ground arith)
        | inr (ls₁, e) ↦
            let rest = unlink_lease-hit a mac ls ls₁ u.1 e in
            let there = lookup-has_addr a ls rest.0 rest.1 in
            (rest.0, ground (arith, u.0, there), rest.2)
      ]
    ]

unlink_lease-miss :
    (a : ℕ) (mac : Bytes) (ls : List Lease) (l : Lease)
    → unlink_lease a mac ls ≡ none
    → lookup a ls ≡ some l
    → same_mac l.chaddr mac ≡ false
unfolding unlink_lease
unlink_lease-miss a mac [] m h e = cc
unlink_lease-miss a mac (l ∷ ls) m h e = ground (arith, unlink_lease-miss a mac ls m)

lookup-unlink_lease :
    (a b : ℕ) (mac : Bytes) (ls ls' : List Lease)
    → Unique ls
    → unlink_lease a mac ls ≡ some ls'
    → lookup b ls' ≡ (if a == b then none else lookup b ls)
unfolding unlink_lease
lookup-unlink_lease a b mac [] ls' u h = cc
lookup-unlink_lease a b mac (l ∷ ls) ls' u h = elim (Option-cases (unlink_lease a mac ls)) [
  | inl e ↦ ground (arith, lookup-not_has_addr l.addr ls u.0)
  | inr (ls₁, e) ↦
      let hit = unlink_lease-hit a mac ls ls₁ u.1 e in
      ground (
        arith,
        lookup-unlink_lease a b mac ls ls₁ u.1 e,
        lookup-not_has_addr l.addr ls u.0,
        lookup-has_addr a ls hit.0 hit.1,
      )
]

-- On a well-formed table, `delete_lease` removes the lease of its address if the MAC address is the
-- one that is recorded, and no other lease changes.
pub lookup-delete_lease :
    (t : Leases) (ip : ℕ) (mac : Bytes) (b : ℕ)
    → IsTable t
    → lookup b (delete_lease t ip mac).lease_head ≡ elim (lookup b t.lease_head) [
      | none ↦ none
      | some l ↦ if (ntohl ip == b) && same_mac l.chaddr mac then none else some l
    ]
unfolding delete_lease
lookup-delete_lease t ip mac b h = elim (Option-cases (unlink_lease (ntohl ip) mac t.lease_head)) [
  | inl e ↦ elim (Option-cases (lookup b t.lease_head)) [
    | inl miss ↦ ground arith
    | inr (l, found) ↦ ground (arith, unlink_lease-miss (ntohl ip) mac t.lease_head l e)
  ]
  | inr (ls, e) ↦
      let hit = unlink_lease-hit (ntohl ip) mac t.lease_head ls h.unique e in
      ground (arith, hit.1, hit.2, lookup-unlink_lease (ntohl ip) b mac t.lease_head ls h.unique e)
]

unlink_lease-snoc :
    (mac : Bytes) (ls : List Lease) (l : Lease)
    → lookup l.addr ls ≡ none
    → same_mac l.chaddr mac ≡ true
    → unlink_lease l.addr mac (ls ++ l ∷ []) ≡ some ls
unfolding unlink_lease
unlink_lease-snoc mac [] l h same = ground arith
unlink_lease-snoc mac (x ∷ xs) l h same = ground (arith, unlink_lease-snoc mac xs l)

-- A new address that is added and released by the same client leaves the table as it was.
delete_lease-add_lease :
    (now : ℕ) (t : Leases) (ip : ℕ) (mac : Bytes)
    → lookup (ntohl ip) t.lease_head ≡ none
    → delete_lease (add_lease now t ip mac) ip mac ≡ t
unfolding delete_lease add_lease
delete_lease-add_lease now t ip mac h =
    elim (Option-cases (stamp_lease now (ntohl ip) t.lease_head)) [
      | inl e ↦ ground (
        arith,
        unlink_lease-snoc mac t.lease_head (fresh now (ntohl ip) mac) h (same_mac-take mac),
      )
      | inr (ls, e) ↦ absurd (stamp_lease-some now (ntohl ip) t.lease_head ls e h)
    ]
