-- ===== src/Lease/Allocate.antt =====
-- `allocate_ip`: the lease of a known client, a free address of the pool, or the error.
use internet_applications.Base.{
  ℕ, zero, suc, ◌+◌, ◌%◌, ◌^◌, ◌-◌, ◌≤◌, ◌<◌, ◌≡◌, refl, ◌⊎◌, false, Option, none, some, List,
  Bytes, arith, ok, Run-cases, ◌==◌, ltb, if◌then◌else◌, ℤ, pos, negsuc, Option-cases, Bool-cases,
  inl, inr,
}
use native.Mathlib.Nat.{zero-add}
use internet_applications.Protocol.{ip_address_pool_start, ip_address_pool_amount}
use internet_applications.Lease.{
  Lease, Leases, Random, has_addr, drawn, draw, allocate_ip, reuse_lease,
}
use internet_applications.Lease.Table.{IsTable, lookup, find_mac}
use internet_applications.Lease.Range.{free_addr}
use internet_applications.Lease.Lookup.{
  stamped, reuse_lease-find_mac, reuse_lease-none, lookup-reuse_lease,
}

abbrev pub InRange : ℕ → Type 0
InRange a = (ip_address_pool_start ≤ a) × (a < ip_address_pool_start + ip_address_pool_amount)

-- In a well-formed table, a client that has a lease is given its address again; that lease is
-- stamped, and no other changes.
pub allocate_ip_known :
    (r : Random) (now seed_time : ℕ) (t : Leases) (mac : Bytes) (l : Lease)
    → IsTable t
    → find_mac mac t.lease_head ≡ some l
    → (t' : Leases) × (allocate_ip r now seed_time t mac ≡ ok (t', pos 0, some l.addr))
      × ((b : ℕ)
          → lookup b t'.lease_head ≡ (
              if l.addr == b
              then elim (lookup b t.lease_head) [ some m ↦ some (stamped now m) | none ↦ none ]
              else lookup b t.lease_head))
unfolding allocate_ip
allocate_ip_known r now seed_time t mac l h known =
    let (ls, e) = reuse_lease-find_mac now mac t.lease_head l known in
    (
      record t { lease_head = ls },
      ground (arith, e),
      λ b. lookup-reuse_lease now l.addr b mac t.lease_head ls h.unique e,
    )

draw-free :
    (fuel : ℕ) (rand : ℕ → ℕ) (k : ℕ) (ls : List Lease) (a : ℕ)
    → draw fuel rand k ls ≡ ok a
    → InRange a × (has_addr a ls ≡ false)
unfolding draw
draw-free zero rand k ls a h = cc
draw-free (suc fuel) rand k ls a h = elim (Bool-cases (has_addr (drawn rand k) ls)) [
  | inl taken ↦ ground (arith, draw-free fuel rand (k + 1) ls a)
  | inr free ↦ ground arith
]

-- The outcomes for a client without a lease: the error exactly when the count has reached the size
-- of the pool, and otherwise an address of the pool that no lease has. The leases stay.
pub allocate_ip_new :
    (r : Random) (now seed_time : ℕ) (t : Leases) (mac : Bytes)
    → find_mac mac t.lease_head ≡ none
    → (t' : Leases) (res : ℤ) (new_ip : Option ℕ)
    → allocate_ip r now seed_time t mac ≡ ok (t', res, new_ip)
    → (t' ≡ t)
      × (((ip_address_pool_amount ≤ t.num_of_lease) × (res ≡ negsuc 0) × (new_ip ≡ none))
          ⊎ ((t.num_of_lease < ip_address_pool_amount)
              × (res ≡ pos 0)
              × ((a : ℕ) × (new_ip ≡ some a) × InRange a × (has_addr a t.lease_head ≡ false))))
unfolding allocate_ip
allocate_ip_new r now seed_time t mac unknown t' res new_ip run =
    elim (Run-cases (draw r.fuel (r.rand (seed_time % 2 ^ 32)) 0 t.lease_head)) [
      | inl (a, e) ↦ ground (
        arith,
        reuse_lease-none now mac t.lease_head unknown,
        draw-free r.fuel (r.rand (seed_time % 2 ^ 32)) 0 t.lease_head a e,
      )
      | inr (inl e) ↦ ground (arith, reuse_lease-none now mac t.lease_head unknown)
      | inr (inr e) ↦ ground (arith, reuse_lease-none now mac t.lease_head unknown)
    ]

-- The loop at `outer:` ends at the first draw that is free.
draw-total :
    (fuel : ℕ) (rand : ℕ → ℕ) (k n : ℕ) (ls : List Lease)
    → n < fuel
    → has_addr (drawn rand (k + n)) ls ≡ false
    → (a : ℕ) × (draw fuel rand k ls ≡ ok a)
unfolding draw
draw-total zero rand k n ls h free = absurd (omega arith)
draw-total (suc fuel) rand k zero ls h free =
    let same : k + 0 ≡ k = omega arith in (drawn rand k, rw (rw same at free))
draw-total (suc fuel) rand k (suc n) ls h free = elim (Bool-cases (has_addr (drawn rand k) ls)) [
  | inl taken ↦
      let shift : k + suc n ≡ k + 1 + n = omega arith in
      let (a, e) = draw-total fuel rand (k + 1) n ls (omega arith) (rw (← shift) free) in
      (a, rw taken e)
  | inr now ↦ (drawn rand k, rw now)
]

drawn_pool :
    (rand : ℕ → ℕ) (k m : ℕ)
    → m < ip_address_pool_amount
    → rand k % ip_address_pool_amount ≡ m
    → drawn rand k ≡ ip_address_pool_start + m
drawn_pool rand k m small hits = omega arith

-- The draws of every seed reach every address of the pool within the fuel.
abbrev pub Covers : Random → Type 0
Covers r =
    (seed m : ℕ)
    → m < ip_address_pool_amount
    → (k : ℕ) × (k < r.fuel) × (r.rand seed k % ip_address_pool_amount ≡ m)

-- The allocation returns.
allocate_ip_returns :
    (r : Random) (now seed_time : ℕ) (t : Leases) (mac : Bytes)
    → Covers r
    → IsTable t
    → (t' : Leases) × (res : ℤ) × (new_ip : Option ℕ) × (allocate_ip r now seed_time t mac
        ≡ ok (t', res, new_ip))
unfolding allocate_ip
allocate_ip_returns r now seed_time t mac covers h =
    elim (Option-cases (reuse_lease now mac t.lease_head)) [
      | inr ((a, ls), e) ↦ (record t { lease_head = ls }, pos 0, some a, ground (arith, e))
      | inl e ↦ elim (Bool-cases (ltb (ip_address_pool_amount - 1) t.num_of_lease)) [
        | inl full ↦ (t, negsuc 0, none, ground (arith, e))
        | inr room ↦
            let (m, small, free) =
              free_addr ip_address_pool_amount ip_address_pool_start t.lease_head (ground arith) in
            let (k, soon, hits) = covers (seed_time % 2 ^ 32) m small in
            let (a, d) = draw-total r.fuel (r.rand (seed_time % 2 ^ 32)) 0 k t.lease_head soon (
              rw (drawn_pool (r.rand (seed_time % 2 ^ 32)) (0 + k) m small (rw (zero-add) hits))
                free) in
            (t, pos 0, some a, ground (arith, e, room, d))
      ]
    ]

-- What an allocation gives: to a client with a lease its address, with the result 0; and to another
-- the error -1 where the count has reached the size of the pool, and below it, with the result 0, an
-- address of the pool that no lease has.
abbrev pub Allocated : Leases → (mac : Bytes) → (res : ℤ) → (new_ip : Option ℕ) → Type 0
Allocated t mac res new_ip = elim (find_mac mac t.lease_head) [
  | some l ↦ (res ≡ pos 0) × (new_ip ≡ some l.addr)
  | none ↦
      ((ip_address_pool_amount ≤ t.num_of_lease) × (res ≡ negsuc 0) × (new_ip ≡ none))
      ⊎ ((t.num_of_lease < ip_address_pool_amount)
          × (res ≡ pos 0)
          × ((a : ℕ) × (new_ip ≡ some a) × InRange a × (has_addr a t.lease_head ≡ false)))
]

-- `allocate_ip` returns on a well-formed table if the draws cover the pool. To a client that has a lease
-- it gives the address of this lease; to another it gives the error if the count has reached the size
-- of the pool, and else an address of the pool that no lease has.
pub allocate_ip_total :
    (r : Random) (now seed_time : ℕ) (t : Leases) (mac : Bytes)
    → Covers r
    → IsTable t
    → (t' : Leases) × (res : ℤ) × (new_ip : Option ℕ) × (allocate_ip r now seed_time t mac
        ≡ ok (t', res, new_ip))
      × Allocated t mac res new_ip
allocate_ip_total r now seed_time t mac covers h = elim (Option-cases (find_mac mac t.lease_head)) [
  | inr (l, known) ↦
      let (t', run, looks) = allocate_ip_known r now seed_time t mac l h known in
      (t', pos 0, some l.addr, run, rw (Allocated, known) (refl, refl))
  | inl unknown ↦
      let (t', res, new_ip, run) = allocate_ip_returns r now seed_time t mac covers h in
      (
        t',
        res,
        new_ip,
        run,
        rw (Allocated, unknown) (allocate_ip_new r now seed_time t mac unknown t' res new_ip run).1,
      )
]
