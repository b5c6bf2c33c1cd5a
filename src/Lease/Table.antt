-- ===== src/Lease/Table.antt =====
-- The lease list of dhcp-server.c as a finite map from addresses to leases, its well-formedness, and
-- the operations on it.
use internet_applications.Base.{
  ℕ, ◌≤◌, ◌+◌, ◌≡◌, refl, true, false, ◌||◌, Option, none, some, List, [], ◌∷◌, ◌++◌, Bytes, length,
  length-append, arith, ok, Run-cases, ◌%◌, ◌^◌, ◌==◌, if◌then◌else◌, ℤ, Option-cases, Bool-cases,
  inl, inr, take,
}
use internet_applications.Words.{ntohl}
use internet_applications.Protocol.{hardware_address_length}
use internet_applications.Lease.{
  Lease, Leases, Random, same_mac, has_addr, allocate_ip, add_lease, delete_lease, reuse_lease,
  stamp_lease, draw, unlink_lease,
}

abbrev pub Unique : List Lease → Type 0
Unique [] = Unit
Unique (l ∷ ls) = (has_addr l.addr ls ≡ false) × Unique ls

pub record IsTable (t : Leases) : Type 0 where
  pub counted : t.num_of_lease ≡ length t.lease_head
  pub unique : Unique t.lease_head

-- The first lease of an address.
abbrev pub lookup : ℕ → List Lease → Option Lease
lookup a [] = none
lookup a (l ∷ ls) = if l.addr == a then some l else lookup a ls

pub lookup-has_addr :
    (a : ℕ) (ls : List Lease) (l : Lease) → lookup a ls ≡ some l → has_addr a ls ≡ true
lookup-has_addr a [] m h = cc
lookup-has_addr a (l ∷ ls) m h = ground (arith, lookup-has_addr a ls m)

pub lookup-not_has_addr : (a : ℕ) (ls : List Lease) → has_addr a ls ≡ false → lookup a ls ≡ none
lookup-not_has_addr a [] h = refl
lookup-not_has_addr a (l ∷ ls) h = ground (arith, lookup-not_has_addr a ls)

pub has_addr-lookup :
    (a : ℕ) (ls : List Lease) → has_addr a ls ≡ true → (l : Lease) × (lookup a ls ≡ some l)
has_addr-lookup a [] h = cc
has_addr-lookup a (l ∷ ls) h = elim (Bool-cases (l.addr == a)) [
  | inl e ↦ (l, rw e)
  | inr e ↦ let (m, there) = has_addr-lookup a ls (ground arith) in (m, rw e there)
]

-- The first lease of a MAC address.
abbrev pub find_mac : Bytes → List Lease → Option Lease
find_mac mac [] = none
find_mac mac (l ∷ ls) = if same_mac l.chaddr mac then some l else find_mac mac ls

-- `reuse_lease` and `stamp_lease` change no address, `unlink_lease` drops one node.
reuse_lease-laws :
    (now : ℕ) (mac : Bytes) (ls ls' : List Lease) (a b : ℕ)
    → reuse_lease now mac ls ≡ some (a, ls')
    → (length ls' ≡ length ls) × (has_addr b ls' ≡ has_addr b ls)
unfolding reuse_lease
reuse_lease-laws now mac [] ls' a b h = cc
reuse_lease-laws now mac (l ∷ ls) ls' a b h = elim (Option-cases (reuse_lease now mac ls)) [
  | inl e ↦ ground arith
  | inr ((a₁, ls₁), e) ↦ ground (arith, reuse_lease-laws now mac ls ls₁ a₁ b e)
]

reuse_lease-Unique :
    (now : ℕ) (mac : Bytes) (ls ls' : List Lease) (a : ℕ)
    → Unique ls
    → reuse_lease now mac ls ≡ some (a, ls')
    → Unique ls'
unfolding reuse_lease
reuse_lease-Unique now mac [] ls' a u h = cc
reuse_lease-Unique now mac (l ∷ ls) ls' a u h = elim (Option-cases (reuse_lease now mac ls)) [
  | inl e ↦ ground arith
  | inr ((a₁, ls₁), e) ↦ ground (
    arith,
    reuse_lease-laws now mac ls ls₁ a₁ l.addr e,
    reuse_lease-Unique now mac ls ls₁ a₁ u.1 e,
  )
]

stamp_lease-laws :
    (now a b : ℕ) (ls ls' : List Lease)
    → stamp_lease now a ls ≡ some ls'
    → (length ls' ≡ length ls) × (has_addr b ls' ≡ has_addr b ls)
unfolding stamp_lease
stamp_lease-laws now a b [] ls' h = cc
stamp_lease-laws now a b (l ∷ ls) ls' h = elim (Option-cases (stamp_lease now a ls)) [
  | inl e ↦ ground arith
  | inr (ls₁, e) ↦ ground (arith, stamp_lease-laws now a b ls ls₁ e)
]

stamp_lease-Unique :
    (now a : ℕ) (ls ls' : List Lease) → Unique ls → stamp_lease now a ls ≡ some ls' → Unique ls'
unfolding stamp_lease
stamp_lease-Unique now a [] ls' u h = cc
stamp_lease-Unique now a (l ∷ ls) ls' u h = elim (Option-cases (stamp_lease now a ls)) [
  | inl e ↦ ground arith
  | inr (ls₁, e) ↦
      ground (arith, stamp_lease-laws now a l.addr ls ls₁ e, stamp_lease-Unique now a ls ls₁ u.1 e)
]

stamp_lease-none :
    (now a : ℕ) (ls : List Lease) → stamp_lease now a ls ≡ none → has_addr a ls ≡ false
unfolding stamp_lease
stamp_lease-none now a [] h = refl
stamp_lease-none now a (l ∷ ls) h = ground (arith, stamp_lease-none now a ls)

unlink_lease-laws :
    (a b : ℕ) (mac : Bytes) (ls ls' : List Lease)
    → unlink_lease a mac ls ≡ some ls'
    → (length ls ≡ length ls' + 1) × (has_addr b ls ≡ false → has_addr b ls' ≡ false)
unfolding unlink_lease
unlink_lease-laws a b mac [] ls' h = cc
unlink_lease-laws a b mac (l ∷ ls) ls' h = elim (Option-cases (unlink_lease a mac ls)) [
  | inl e ↦ ground arith
  | inr (ls₁, e) ↦ ground (arith, unlink_lease-laws a b mac ls ls₁ e)
]

unlink_lease-Unique :
    (a : ℕ) (mac : Bytes) (ls ls' : List Lease)
    → Unique ls
    → unlink_lease a mac ls ≡ some ls'
    → Unique ls'
unfolding unlink_lease
unlink_lease-Unique a mac [] ls' u h = cc
unlink_lease-Unique a mac (l ∷ ls) ls' u h = elim (Option-cases (unlink_lease a mac ls)) [
  | inl e ↦ ground arith
  | inr (ls₁, e) ↦
      ground
        (arith, unlink_lease-laws a l.addr mac ls ls₁ e, unlink_lease-Unique a mac ls ls₁ u.1 e)
]

has_addr-append :
    (a : ℕ) (xs ys : List Lease) → has_addr a (xs ++ ys) ≡ (has_addr a xs || has_addr a ys)
has_addr-append a [] ys = refl
has_addr-append a (x ∷ xs) ys = ground (arith, has_addr-append a xs ys)

Unique-snoc :
    (ls : List Lease) (l : Lease) → Unique ls → has_addr l.addr ls ≡ false → Unique (ls ++ l ∷ [])
Unique-snoc [] l u h = (refl, tt)
Unique-snoc (x ∷ xs) l u h =
    ground (arith, has_addr-append x.addr xs (l ∷ []), Unique-snoc xs l u.1)

-- `add_lease` lists the address once more only if it is new, and then counts it.
pub add_lease-IsTable :
    (now : ℕ) (t : Leases) (new_ip : ℕ) (mac : Bytes)
    → IsTable t
    → IsTable (add_lease now t new_ip mac)
unfolding add_lease
add_lease-IsTable now t new_ip mac h =
    elim (Option-cases (stamp_lease now (ntohl new_ip) t.lease_head)) [
      | inl e ↦
          let new : Lease = record {
            time_stamp = now;
            addr = ntohl new_ip;
            chaddr = take hardware_address_length mac;
          } in
          ground (
            arith,
            length-append t.lease_head (new ∷ []),
            Unique-snoc t.lease_head new h.unique
                (stamp_lease-none now (ntohl new_ip) t.lease_head e),
          )
      | inr (ls, e) ↦ ground (
        arith,
        stamp_lease-laws now (ntohl new_ip) 0 t.lease_head ls e,
        stamp_lease-Unique now (ntohl new_ip) t.lease_head ls h.unique e,
      )
    ]

-- `delete_lease` uncounts the node that it drops.
pub delete_lease-IsTable :
    (t : Leases) (ip : ℕ) (mac : Bytes) → IsTable t → IsTable (delete_lease t ip mac)
unfolding delete_lease
delete_lease-IsTable t ip mac h = elim (Option-cases (unlink_lease (ntohl ip) mac t.lease_head)) [
  | inl e ↦ ground arith
  | inr (ls, e) ↦ ground (
    arith,
    unlink_lease-laws (ntohl ip) 0 mac t.lease_head ls e,
    unlink_lease-Unique (ntohl ip) mac t.lease_head ls h.unique e,
  )
]

-- `allocate_ip` only stamps a lease.
pub allocate_ip-IsTable :
    (r : Random) (now seed_time : ℕ) (t : Leases) (mac : Bytes)
    → IsTable t
    → (t' : Leases) (res : ℤ) (a : Option ℕ) → allocate_ip r now seed_time t mac ≡ ok (t', res, a)
    → IsTable t'
unfolding allocate_ip
allocate_ip-IsTable r now seed_time t mac h t' res a run =
    elim (Option-cases (reuse_lease now mac t.lease_head)) [
      | inl e ↦ elim (Run-cases (draw r.fuel (r.rand (seed_time % 2 ^ 32)) 0 t.lease_head)) [
        | inl (x, d) ↦ ground arith
        | inr (inl d) ↦ ground arith
        | inr (inr d) ↦ ground arith
      ]
      | inr ((x, ls), e) ↦ ground (
        arith,
        reuse_lease-laws now mac t.lease_head ls x 0 e,
        reuse_lease-Unique now mac t.lease_head ls x h.unique e,
      )
    ]

-- How the number of leases grows.
pub allocate_ip-num :
    (x : Random) (now seed_time : ℕ) (t : Leases) (mac : Bytes) (t' : Leases) (res : ℤ)
    (a : Option ℕ)
    → allocate_ip x now seed_time t mac ≡ ok (t', res, a)
    → t'.num_of_lease ≡ t.num_of_lease
unfolding allocate_ip
allocate_ip-num x now seed_time t mac t' res a run =
    elim (Option-cases (reuse_lease now mac t.lease_head)) [
      | inl e ↦ elim (Run-cases (draw x.fuel (x.rand (seed_time % 2 ^ 32)) 0 t.lease_head)) [
        | inl (y, d) ↦ ground arith
        | inr (inl d) ↦ ground arith
        | inr (inr d) ↦ ground arith
      ]
      | inr ((y, ls), e) ↦ ground arith
    ]

pub add_lease-num :
    (now : ℕ) (t : Leases) (ip : ℕ) (mac : Bytes)
    → (add_lease now t ip mac).num_of_lease ≤ t.num_of_lease + 1
unfolding add_lease
add_lease-num now t ip mac = ground arith
