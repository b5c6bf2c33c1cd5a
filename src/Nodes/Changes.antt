-- ===== src/Nodes/Changes.antt =====
-- A node is written, unlinked and freed, or appended: the memory holds the changed list.
use internet_applications.Base.{
  ℕ, ◌≡◌, ◌≢◌, refl, true, false, ◌||◌, Option, none, some, [], ◌∷◌, ◌++◌, arith, ◌==◌, Bool-cases,
  inl, inr,
}
use internet_applications.Lease.{Lease}
use internet_applications.Nodes.{update}
use internet_applications.Nodes.Links.{
  Cells, held, Apart, last, first, Links, Tail, held-append, Links-Tail, Links-first, Links-split,
  Links-join, Links-frame_next, Links-frame_lease, Tail-frame_next, Tail-frame_lease, Links-relink,
}

-- The dummy head `p` and the cells behind it are all that is allocated, each once.
pub record Holds (n : ℕ → Option ℕ) (d : ℕ → Option Lease) (p : ℕ) (cs : Cells) : Type 0 where
  pub linked : Links n d p cs 0
  pub apart : Apart p cs
  pub owned : (a : ℕ) → ((p == a) || held a cs) ≡ false → (n a ≡ none) × (d a ≡ none)

Apart-at :
    (p : ℕ) (xs : Cells) (q : ℕ) (l : Lease) (ys : Cells)
    → Apart p (xs ++ (q, l) ∷ ys)
    → ((p == q) ≡ false) × (held q xs ≡ false) × (held q ys ≡ false)
Apart-at p [] q l [] h = ground arith
Apart-at p [] q l ((r, k) ∷ ys) h = ground arith
Apart-at p ((r, k) ∷ xs) q l ys h =
    ground (arith, Apart-at r xs q l ys h.1, held-append p xs ((q, l) ∷ ys))

Apart-front : (p : ℕ) (xs ys : Cells) → Apart p (xs ++ ys) → Apart p xs
Apart-front p [] ys h = tt
Apart-front p ((r, k) ∷ xs) ys h = (ground (arith, held-append p xs ys), Apart-front r xs ys h.1)

Apart-behind : (p : ℕ) (ys : Cells) → Apart p ys → held p ys ≡ false
Apart-behind p [] h = refl
Apart-behind p ((r, k) ∷ ys) h = h.0

Apart-last : (p : ℕ) (xs ys : Cells) → Apart p (xs ++ ys) → held (last p xs) ys ≡ false
Apart-last p [] ys h = Apart-behind p ys h
Apart-last p ((r, k) ∷ xs) ys h = Apart-last r xs ys h.1

Apart-change :
    (p : ℕ) (xs : Cells) (q : ℕ) (l l' : Lease) (ys : Cells)
    → Apart p (xs ++ (q, l) ∷ ys)
    → Apart p (xs ++ (q, l') ∷ ys)
Apart-change p [] q l l' ys h = h
Apart-change p ((r, k) ∷ xs) q l l' ys h = (
  ground (arith, held-append p xs ((q, l) ∷ ys), held-append p xs ((q, l') ∷ ys)),
  Apart-change r xs q l l' ys h.1,
)

Apart-bring : (p q : ℕ) (l : Lease) (ys : Cells) → Apart p ((q, l) ∷ ys) → Apart p ys
Apart-bring p q l [] h = tt
Apart-bring p q l ((r, k) ∷ ys) h = (ground arith, h.1.1)

Apart-drop :
    (p : ℕ) (xs : Cells) (q : ℕ) (l : Lease) (ys : Cells)
    → Apart p (xs ++ (q, l) ∷ ys)
    → Apart p (xs ++ ys)
Apart-drop p [] q l ys h = Apart-bring p q l ys h
Apart-drop p ((r, k) ∷ xs) q l ys h = (
  ground (arith, held-append p xs ((q, l) ∷ ys), held-append p xs ys),
  Apart-drop r xs q l ys h.1,
)

Apart-snoc :
    (p : ℕ) (cs : Cells) (a : ℕ) (l : Lease)
    → (p == a) ≡ false
    → held a cs ≡ false
    → Apart p cs
    → Apart p (cs ++ (a, l) ∷ [])
Apart-snoc p [] a l e h k = (ground arith, tt)
Apart-snoc p ((r, m) ∷ cs) a l e h k = (
  ground (arith, held-append p cs ((a, l) ∷ [])),
  Apart-snoc r cs a l (ground arith) (ground arith) k.1,
)

last-ne :
    (p : ℕ) (xs : Cells) (q : ℕ) → (p == q) ≡ false → held q xs ≡ false → (last p xs == q) ≡ false
last-ne p [] q e h = e
last-ne p ((r, k) ∷ xs) q e h = last-ne r xs q (ground arith) (ground arith)

Links-held :
    (n : ℕ → Option ℕ) (d : ℕ → Option Lease) (p : ℕ) (cs : Cells) (w a : ℕ)
    → Links n d p cs w
    → held a cs ≡ true
    → (v : ℕ) × (n a ≡ some v)
Links-held n d p [] w a h k = absurd (ground arith)
Links-held n d p ((q, l) ∷ cs) w a h k = elim (Bool-cases (q == a)) [
  | inl e ↦ (first w cs, ground (arith, Links-first n d q cs w h.3))
  | inr e ↦ Links-held n d q cs w a h.3 (ground arith)
]

module _ (n : ℕ → Option ℕ) (d : ℕ → Option Lease) (p : ℕ) where
  pub Holds-write :
      (xs : Cells) (q : ℕ) (l l' : Lease) (ys : Cells)
      → Holds n d p (xs ++ (q, l) ∷ ys)
      → Holds n (update d q (some l')) p (xs ++ (q, l') ∷ ys)
  Holds-write xs q l l' ys h =
      let (front, (nonnull, there, back)) = Links-split n d p xs ((q, l) ∷ ys) 0 h.linked in
      let (not_head, not_before, not_behind) = Apart-at p xs q l ys h.apart in
      let d' = update d q (some l') in
      record {
        linked =
            Links-join n d' p xs ((q, l') ∷ ys) 0
              (Links-frame_lease n d q (some l') p xs q not_before front)
              (nonnull, ground arith, Links-frame_lease n d q (some l') q ys 0 not_behind back);
        apart = Apart-change p xs q l l' ys h.apart;
        owned = λ a out.
            ground
              (arith, h.owned a, held-append a xs ((q, l) ∷ ys), held-append a xs ((q, l') ∷ ys));
      }

  -- `f` is where the freed node led.
  pub Holds-unlink :
      (xs : Cells) (q : ℕ) (l : Lease) (ys : Cells)
      → Holds n d p (xs ++ (q, l) ∷ ys)
      → Holds
          (update (update n (last p xs) (some (first 0 ys))) q none)
          (update d q none)
          p
          (xs ++ ys)
  Holds-unlink xs q l ys h =
      let (front, (nonnull, there, back)) = Links-split n d p xs ((q, l) ∷ ys) 0 h.linked in
      let (not_head, not_before, not_behind) = Apart-at p xs q l ys h.apart in
      let f = first 0 ys in
      let n₁ = update n (last p xs) (some f) in
      let n₂ = update n₁ q none in
      let tail : Tail n d ys 0 = Links-Tail n d q ys 0 back in
      let end = Apart-last p xs ys (Apart-drop p xs q l ys h.apart) in
      record {
        linked =
            Links-join n₂ (update d q none) p xs ys 0
              (Links-frame_lease n₂ d q none p xs f not_before (
                Links-frame_next n₁ d q none p xs f not_head not_before
                  (Links-relink n d p xs q f (Apart-front p xs ((q, l) ∷ ys) h.apart) front)))
              (Tail-frame_lease n₂ d q none ys 0 not_behind (
                Tail-frame_next n₁ d q none ys 0 not_behind
                  (Tail-frame_next n d (last p xs) (some f) ys 0 end tail)));
        apart = Apart-drop p xs q l ys h.apart;
        owned = λ a out. elim (Bool-cases (q == a)) [
          | inl freed ↦ ground (arith, freed)
          | inr kept ↦ ground (
            arith,
            kept,
            h.owned a,
            held-append a xs ((q, l) ∷ ys),
            held-append a xs ys,
            last-ne p xs a,
          )
        ];
      }

  -- A free address is none of the nodes.
  pub Holds-other :
      (cs : Cells) (a : ℕ) → n a ≡ none → Holds n d p cs → ((p == a) ≡ false) × (held a cs ≡ false)
  Holds-other cs a new h =
      let here = Links-first n d p cs 0 h.linked in
      (
        elim (Bool-cases (p == a)) [ inl e ↦ absurd (ground arith) | inr e ↦ e ],
        elim (Bool-cases (held a cs)) [
          | inl e ↦ absurd (let (v, linked) = Links-held n d p cs 0 a h.linked e in cc)
          | inr e ↦ e
        ],
      )

  pub Holds-append :
      (cs : Cells) (a : ℕ) (l : Lease)
      → a ≢ 0
      → n a ≡ none
      → Holds n d p cs
      → Holds
          (update (update n a (some 0)) (last p cs) (some a))
          (update d a (some l))
          p
          (cs ++ (a, l) ∷ [])
  Holds-append cs a l nonnull new h =
      let (head_other, others) = Holds-other cs a new h in
      let end = last-ne p cs a head_other others in
      let n₁ = update n a (some 0) in
      let n₂ = update n₁ (last p cs) (some a) in
      let chain =
        Links-relink n₁ d p cs 0 a h.apart
          (Links-frame_next n d a (some 0) p cs 0 head_other others h.linked) in
      record {
        linked =
            Links-join n₂ (update d a (some l)) p cs ((a, l) ∷ []) 0
              (Links-frame_lease n₂ d a (some l) p cs a others chain)
              (nonnull, ground arith, ground (arith, end));
        apart = Apart-snoc p cs a l head_other others h.apart;
        owned = λ b out. ground (arith, h.owned b, held-append b cs ((a, l) ∷ []), last-ne p cs b);
      }
