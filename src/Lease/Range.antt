-- ===== src/Lease/Range.antt =====
-- Counting the leases of a range of addresses.
use internet_applications.Base.{
  ℕ, zero, suc, ◌+◌, ◌≤◌, ◌<◌, ◌≡◌, ◌≢◌, refl, sym, ◌∙◌, true, false, List, [], ◌∷◌, arith, ◌==◌,
  if◌then◌else◌, Bool-cases, ==→eq, ==→ne, inl, inr, length,
}
use internet_applications.Lease.{Lease, has_addr}
use internet_applications.Lease.Table.{Unique}

-- An address is dropped from a list of leases at its first place.
erase_addr : ℕ → List Lease → List Lease
erase_addr a [] = []
erase_addr a (l ∷ ls) = if l.addr == a then ls else l ∷ erase_addr a ls

length-erase_addr :
    (a : ℕ) (ls : List Lease) → has_addr a ls ≡ true → length ls ≡ suc (length (erase_addr a ls))
unfolding erase_addr
length-erase_addr a [] h = cc
length-erase_addr a (l ∷ ls) h = ground (arith, length-erase_addr a ls)

length-le_erase_addr : (a : ℕ) (ls : List Lease) → length ls ≤ suc (length (erase_addr a ls))
unfolding erase_addr
length-le_erase_addr a [] = omega arith
length-le_erase_addr a (l ∷ ls) = ground (arith, length-le_erase_addr a ls)

has_addr-erase_addr_ne :
    (a b : ℕ) (ls : List Lease) → a ≢ b → has_addr b (erase_addr a ls) ≡ has_addr b ls
unfolding erase_addr
has_addr-erase_addr_ne a b [] ne = refl
has_addr-erase_addr_ne a b (l ∷ ls) ne = ground (arith, has_addr-erase_addr_ne a b ls ne)

-- Fewer leases than addresses leave an address free.
pub free_addr :
    (n base : ℕ) (ls : List Lease)
    → length ls < n
    → (k : ℕ) × (k < n) × (has_addr (base + k) ls ≡ false)
free_addr zero base ls h = absurd (omega arith)
free_addr (suc n) base ls h = elim (Bool-cases (has_addr (base + n) ls)) [
  | inl taken ↦
      let (k, lt, free) =
        free_addr n base (erase_addr (base + n) ls)
          (omega (arith, length-erase_addr (base + n) ls taken)) in
      (k, omega arith, sym (has_addr-erase_addr_ne (base + n) (base + k) ls (omega arith)) ∙ free)
  | inr free ↦ (n, omega arith, free)
]

has_addr-erase_addr_self :
    (a : ℕ) (ls : List Lease) → Unique ls → has_addr a (erase_addr a ls) ≡ false
unfolding erase_addr
has_addr-erase_addr_self a [] u = refl
has_addr-erase_addr_self a (l ∷ ls) u = elim (Bool-cases (l.addr == a)) [
  | inl e ↦ rw e (rw (← ==→eq l.addr a e) u.0)
  | inr e ↦ ground (arith, has_addr-erase_addr_self a ls u.1)
]

erase_addr-Unique : (a : ℕ) (ls : List Lease) → Unique ls → Unique (erase_addr a ls)
unfolding erase_addr
erase_addr-Unique a [] u = tt
erase_addr-Unique a (l ∷ ls) u = elim (Bool-cases (l.addr == a)) [
  | inl e ↦ rw e u.1
  | inr e ↦ rw e (
    has_addr-erase_addr_ne a l.addr ls (λ same. ==→ne l.addr a e (sym same)) ∙ u.0,
    erase_addr-Unique a ls u.1,
  )
]

-- No more leases than addresses, if they are all different and in the range.
pub length-le_range :
    (n base : ℕ) (ls : List Lease)
    → Unique ls
    → ((a : ℕ) → has_addr a ls ≡ true → (base ≤ a) × (a < base + n))
    → length ls ≤ n
length-le_range zero base [] u within = omega arith
length-le_range zero base (l ∷ ls) u within =
    let h = within l.addr (ground arith) in absurd (omega arith)
length-le_range (suc n) base ls u within =
    let ls' = erase_addr (base + n) ls in
    let inner : (a : ℕ) → has_addr a ls' ≡ true → (base ≤ a) × (a < base + n) = λ a there.
      elim (Bool-cases (base + n == a)) [
        | inl e ↦
            let self = has_addr-erase_addr_self (base + n) ls u in
            absurd (ground (arith, rw (==→eq (base + n) a e) at self))
        | inr e ↦
            let ne = ==→ne (base + n) a e in
            let h = within a (sym (has_addr-erase_addr_ne (base + n) a ls ne) ∙ there) in
            (h.0, omega arith)
      ] in
    let ih = length-le_range n base ls' (erase_addr-Unique (base + n) ls u) inner in
    elim (Bool-cases (has_addr (base + n) ls)) [
      | inl taken ↦ omega (arith, length-erase_addr (base + n) ls taken)
      | inr free ↦ omega (arith, length-le_erase_addr (base + n) ls)
    ]
