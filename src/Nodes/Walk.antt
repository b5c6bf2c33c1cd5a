-- ===== src/Nodes/Walk.antt =====
-- The loops over the nodes end where the list of the nodes says.
use internet_applications.Base.{
  ℕ, zero, suc, ◌<◌, ◌≡◌, ◌≢◌, refl, ap, Bool, true, false, ◌||◌, some, List, [], ◌∷◌, ◌++◌, ok,
  length, arith, ne→==, ◌⊎◌, inl, inr, Bool-cases, append_assoc, append-nil,
}
use internet_applications.Lease.{Lease}
use internet_applications.Nodes.{
  Store, Line, entry, load_next, load_lease, walk, print, print_leases,
}
use internet_applications.Nodes.Links.{Cells, contents, last, Links}

abbrev pub meets : (Lease → Bool) → Cells → Bool
meets test [] = false
meets test ((q, l) ∷ cs) = test l || meets test cs

-- The first cell that meets a test.
pub record Hit (test : Lease → Bool) (cs : Cells) : Type 0 where
  pub before : Cells
  pub at : ℕ
  pub found : Lease
  pub behind : Cells
  pub split : cs ≡ before ++ (at, found) ∷ behind
  pub none_before : meets test before ≡ false
  pub met : test found ≡ true

pub first-Hit : (test : Lease → Bool) (cs : Cells) → Hit test cs ⊎ (meets test cs ≡ false)
first-Hit test [] = inr refl
first-Hit test ((q, l) ∷ cs) = elim (Bool-cases (test l)) [
  | inl e ↦ inl (record {
    before = [];
    at = q;
    found = l;
    behind = cs;
    split = refl;
    none_before = refl;
    met = e;
  })
  | inr e ↦ elim (first-Hit test cs) [
    | inl h ↦ inl (record {
      before = (q, l) ∷ h.before;
      at = h.at;
      found = h.found;
      behind = h.behind;
      split = ap (λ (xs : Cells). (q, l) ∷ xs) h.split;
      none_before = ground (arith, h.none_before);
      met = h.met;
    })
    | inr h ↦ inr (ground arith)
  ]
]

pub load_next_lem : (p q : ℕ) (s : Store) → s.next p ≡ some q → load_next p s ≡ ok (some (q, s))
unfolding load_next
load_next_lem p q s h = ground arith

pub load_lease_lem :
    (p : ℕ) (l : Lease) (s : Store) → s.lease p ≡ some l → load_lease p s ≡ ok (some (l, s))
unfolding load_lease
load_lease_lem p l s h = ground arith

module _ (test : Lease → Bool) (s : Store) where
  pub walk-hit :
      (fuel p : ℕ) (xs : Cells) (q : ℕ) (l : Lease)
      → length xs < fuel
      → Links s.next s.lease p xs q
      → q ≢ 0
      → s.lease q ≡ some l
      → meets test xs ≡ false
      → test l ≡ true
      → walk test fuel p s ≡ ok (some ((last p xs, true), s))
  unfolding walk
  walk-hit zero p xs q l f h z d m t = absurd (omega arith)
  walk-hit (suc fuel) p [] q l f h z d m t =
      rw (load_next_lem p q s h, ne→== q 0 z, load_lease_lem q l s d, t) refl
  walk-hit (suc fuel) p ((r, k) ∷ xs) q l f h z d m t =
      let other : test k ≡ false = ground arith in
      rw (load_next_lem p r s h.0, ne→== r 0 h.1, load_lease_lem r k s h.2, other)
        (walk-hit fuel r xs q l (omega arith) h.3 z d (ground arith) t)

  pub walk-miss :
      (fuel p : ℕ) (cs : Cells)
      → length cs < fuel
      → Links s.next s.lease p cs 0
      → meets test cs ≡ false
      → walk test fuel p s ≡ ok (some ((last p cs, false), s))
  unfolding walk
  walk-miss zero p cs f h m = absurd (omega arith)
  walk-miss (suc fuel) p [] f h m = rw (load_next_lem p 0 s h) refl
  walk-miss (suc fuel) p ((r, k) ∷ cs) f h m =
      let other : test k ≡ false = ground arith in
      rw (load_next_lem p r s h.0, ne→== r 0 h.1, load_lease_lem r k s h.2, other)
        (walk-miss fuel r cs (omega arith) h.3 (ground arith))

abbrev pub entries : List Lease → List Line
entries [] = []
entries (l ∷ ls) = entry l.addr l.chaddr ∷ entries ls

pub print_leases_lem :
    (s : Store) (fuel p : ℕ) (cs : Cells)
    → length cs < fuel
    → Links s.next s.lease p cs 0
    → print_leases fuel p s
      ≡ ok (some (tt, record s { printed = s.printed ++ entries (contents cs) }))
unfolding print_leases print
print_leases_lem s zero p cs f h = absurd (omega arith)
print_leases_lem s (suc fuel) p [] f h = rw (load_next_lem p 0 s h, append-nil s.printed) refl
print_leases_lem s (suc fuel) p ((r, k) ∷ cs) f h =
    let one : Line = entry k.addr k.chaddr in
    let s₁ = record s { printed = s.printed ++ one ∷ [] } in
    rw
      (
        load_next_lem p r s h.0,
        ne→== r 0 h.1,
        load_lease_lem r k s h.2,
        print_leases_lem s₁ fuel r cs (omega arith) h.3,
        append_assoc s.printed (one ∷ []) (entries (contents cs)),
      )
      refl
