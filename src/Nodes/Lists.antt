-- ===== src/Nodes/Lists.antt =====
-- The functions of the lease table at a list that is split where their loop stops.
use internet_applications.Base.{
  ℕ, ◌≡◌, refl, Bool, true, false, ◌&&◌, none, some, List, [], ◌∷◌, ◌++◌, Bytes, arith, ◌==◌, pos,
  ap,
}
use internet_applications.Lease.{
  Lease, same_mac, has_addr, check_lease, reuse_lease, stamp_lease, unlink_lease,
}
use internet_applications.Lease.Lookup.{stamped}
use internet_applications.Nodes.{judge}
use internet_applications.Nodes.Links.{Cells, contents}
use internet_applications.Nodes.Walk.{meets}

abbrev pub of_addr : ℕ → Lease → Bool
of_addr a l = l.addr == a

abbrev pub of_mac : Bytes → Lease → Bool
of_mac mac l = same_mac l.chaddr mac

abbrev pub of_both : ℕ → Bytes → Lease → Bool
of_both a mac l = (l.addr == a) && same_mac l.chaddr mac

pub contents-append : (xs ys : Cells) → contents (xs ++ ys) ≡ contents xs ++ contents ys
contents-append [] ys = refl
contents-append ((q, l) ∷ xs) ys = ap (λ (ls : List Lease). l ∷ ls) (contents-append xs ys)

pub meets-has_addr : (a : ℕ) (cs : Cells) → meets (of_addr a) cs ≡ has_addr a (contents cs)
meets-has_addr a [] = refl
meets-has_addr a ((q, l) ∷ cs) = ground (arith, meets-has_addr a cs)

pub has_addr-hit :
    (a : ℕ) (xs : Cells) (l : Lease) (ys : List Lease)
    → (l.addr == a) ≡ true
    → has_addr a (contents xs ++ l ∷ ys) ≡ true
has_addr-hit a [] l ys t = ground arith
has_addr-hit a ((q, k) ∷ xs) l ys t = ground (arith, has_addr-hit a xs l ys)

module _ (now a : ℕ) (mac : Bytes) where
  pub check_lease-hit :
      (xs : Cells) (l : Lease) (ys : List Lease)
      → meets (of_addr a) xs ≡ false
      → (l.addr == a) ≡ true
      → check_lease now a mac (contents xs ++ l ∷ ys) ≡ judge now mac l
  unfolding check_lease
  check_lease-hit [] l ys m t = rw t refl
  check_lease-hit ((q, k) ∷ xs) l ys m t = ground (arith, check_lease-hit xs l ys)

  pub check_lease-miss :
      (cs : Cells) → meets (of_addr a) cs ≡ false → check_lease now a mac (contents cs) ≡ pos 1
  unfolding check_lease
  check_lease-miss [] m = refl
  check_lease-miss ((q, k) ∷ cs) m = ground (arith, check_lease-miss cs)

  pub reuse_lease-hit :
      (xs : Cells) (l : Lease) (ys : List Lease)
      → meets (of_mac mac) xs ≡ false
      → same_mac l.chaddr mac ≡ true
      → reuse_lease now mac (contents xs ++ l ∷ ys)
        ≡ some (l.addr, contents xs ++ stamped now l ∷ ys)
  unfolding reuse_lease
  reuse_lease-hit [] l ys m t = rw t refl
  reuse_lease-hit ((q, k) ∷ xs) l ys m t = ground (arith, reuse_lease-hit xs l ys)

  pub reuse_lease-miss :
      (cs : Cells) → meets (of_mac mac) cs ≡ false → reuse_lease now mac (contents cs) ≡ none
  unfolding reuse_lease
  reuse_lease-miss [] m = refl
  reuse_lease-miss ((q, k) ∷ cs) m = ground (arith, reuse_lease-miss cs)

  pub stamp_lease-hit :
      (xs : Cells) (l : Lease) (ys : List Lease)
      → meets (of_addr a) xs ≡ false
      → (l.addr == a) ≡ true
      → stamp_lease now a (contents xs ++ l ∷ ys) ≡ some (contents xs ++ stamped now l ∷ ys)
  unfolding stamp_lease
  stamp_lease-hit [] l ys m t = rw t refl
  stamp_lease-hit ((q, k) ∷ xs) l ys m t = ground (arith, stamp_lease-hit xs l ys)

  pub stamp_lease-miss :
      (cs : Cells) → meets (of_addr a) cs ≡ false → stamp_lease now a (contents cs) ≡ none
  unfolding stamp_lease
  stamp_lease-miss [] m = refl
  stamp_lease-miss ((q, k) ∷ cs) m = ground (arith, stamp_lease-miss cs)

  pub unlink_lease-hit :
      (xs : Cells) (l : Lease) (ys : List Lease)
      → meets (of_both a mac) xs ≡ false
      → of_both a mac l ≡ true
      → unlink_lease a mac (contents xs ++ l ∷ ys) ≡ some (contents xs ++ ys)
  unfolding unlink_lease
  unlink_lease-hit [] l ys m t = rw t refl
  unlink_lease-hit ((q, k) ∷ xs) l ys m t = ground (arith, unlink_lease-hit xs l ys)

  pub unlink_lease-miss :
      (cs : Cells) → meets (of_both a mac) cs ≡ false → unlink_lease a mac (contents cs) ≡ none
  unfolding unlink_lease
  unlink_lease-miss [] m = refl
  unlink_lease-miss ((q, k) ∷ cs) m = ground (arith, unlink_lease-miss cs)
