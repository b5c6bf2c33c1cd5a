-- ===== src/Nodes/Links.antt =====
-- What it is for the memory to hold a list of nodes, and how a write changes it.
use internet_applications.Base.{
  ℕ, ◌≡◌, ◌≢◌, refl, Bool, false, ◌||◌, Option, some, List, [], ◌∷◌, ◌++◌, arith, ◌==◌,
}
use internet_applications.Lease.{Lease}
use internet_applications.Nodes.{update}

-- The address and the contents of each node, in order.
abbrev pub Cells : Type 0
Cells = List (ℕ × Lease)

abbrev pub contents : Cells → List Lease
contents [] = []
contents ((q, l) ∷ cs) = l ∷ contents cs

abbrev pub held : ℕ → Cells → Bool
held a [] = false
held a ((q, l) ∷ cs) = (q == a) || held a cs

-- No two of `p` and the addresses of the cells are the same.
abbrev pub Apart : ℕ → Cells → Type 0
Apart p [] = Unit
Apart p ((q, l) ∷ cs) = (held p ((q, l) ∷ cs) ≡ false) × Apart q cs

-- The last node of the cells behind `p`, and the address of the first.
abbrev pub last : ℕ → Cells → ℕ
last p [] = p
last p ((q, l) ∷ cs) = last q cs

abbrev pub first : ℕ → Cells → ℕ
first w [] = w
first w ((q, l) ∷ cs) = q

-- From the node `p` the links lead through the cells, and from the last to `w`.
abbrev pub Links : (ℕ → Option ℕ) → (ℕ → Option Lease) → ℕ → Cells → ℕ → Type 0
Links n d p [] w = n p ≡ some w
Links n d p ((q, l) ∷ cs) w = (n p ≡ some q) × (q ≢ 0) × (d q ≡ some l) × Links n d q cs w

-- The same from the first of the cells on, where there is one.
abbrev pub Tail : (ℕ → Option ℕ) → (ℕ → Option Lease) → Cells → ℕ → Type 0
Tail n d [] w = Unit
Tail n d ((q, l) ∷ cs) w = (q ≢ 0) × (d q ≡ some l) × Links n d q cs w

pub held-append : (a : ℕ) (xs ys : Cells) → held a (xs ++ ys) ≡ (held a xs || held a ys)
held-append a [] ys = refl
held-append a ((q, l) ∷ xs) ys = ground (arith, held-append a xs ys)

module _ (n : ℕ → Option ℕ) (d : ℕ → Option Lease) where
  pub Links-first : (p : ℕ) (cs : Cells) (w : ℕ) → Links n d p cs w → n p ≡ some (first w cs)
  Links-first p [] w h = h
  Links-first p ((q, l) ∷ cs) w h = h.0

  pub Links-Tail : (p : ℕ) (cs : Cells) (w : ℕ) → Links n d p cs w → Tail n d cs w
  Links-Tail p [] w h = tt
  Links-Tail p ((q, l) ∷ cs) w h = (h.1, h.2, h.3)

  pub Links-split :
      (p : ℕ) (xs ys : Cells) (w : ℕ)
      → Links n d p (xs ++ ys) w
      → Links n d p xs (first w ys) × Tail n d ys w
  Links-split p [] ys w h = (Links-first p ys w h, Links-Tail p ys w h)
  Links-split p ((q, l) ∷ xs) ys w h =
      let (front, back) = Links-split q xs ys w h.3 in ((h.0, h.1, h.2, front), back)

  pub Links-join :
      (p : ℕ) (xs ys : Cells) (w : ℕ)
      → Links n d p xs (first w ys)
      → Tail n d ys w
      → Links n d p (xs ++ ys) w
  Links-join p [] [] w h t = h
  Links-join p [] ((q, l) ∷ ys) w h t = (h, t.0, t.1, t.2)
  Links-join p ((q, l) ∷ xs) ys w h t = (h.0, h.1, h.2, Links-join q xs ys w h.3 t)

  -- A write to the link or to the contents of another node.
  pub Links-frame_next :
      (a : ℕ) (v : Option ℕ) (p : ℕ) (cs : Cells) (w : ℕ)
      → (p == a) ≡ false
      → held a cs ≡ false
      → Links n d p cs w
      → Links (update n a v) d p cs w
  Links-frame_next a v p [] w e h k = ground arith
  Links-frame_next a v p ((q, l) ∷ cs) w e h k =
      (ground arith, k.1, k.2, Links-frame_next a v q cs w (ground arith) (ground arith) k.3)

  pub Links-frame_lease :
      (a : ℕ) (v : Option Lease) (p : ℕ) (cs : Cells) (w : ℕ)
      → held a cs ≡ false
      → Links n d p cs w
      → Links n (update d a v) p cs w
  Links-frame_lease a v p [] w h k = k
  Links-frame_lease a v p ((q, l) ∷ cs) w h k =
      (k.0, k.1, ground arith, Links-frame_lease a v q cs w (ground arith) k.3)

  pub Tail-frame_next :
      (a : ℕ) (v : Option ℕ) (cs : Cells) (w : ℕ)
      → held a cs ≡ false
      → Tail n d cs w
      → Tail (update n a v) d cs w
  Tail-frame_next a v [] w h k = tt
  Tail-frame_next a v ((q, l) ∷ cs) w h k =
      (k.0, k.1, Links-frame_next a v q cs w (ground arith) (ground arith) k.2)

  pub Tail-frame_lease :
      (a : ℕ) (v : Option Lease) (cs : Cells) (w : ℕ)
      → held a cs ≡ false
      → Tail n d cs w
      → Tail n (update d a v) cs w
  Tail-frame_lease a v [] w h k = tt
  Tail-frame_lease a v ((q, l) ∷ cs) w h k =
      (k.0, ground arith, Links-frame_lease a v q cs w (ground arith) k.2)

  last-held :
      (p : ℕ) (cs : Cells) (a : ℕ) → (p == a) ≡ false → held a cs ≡ false → (last p cs == a) ≡ false
  last-held p [] a e h = e
  last-held p ((q, l) ∷ cs) a e h = last-held q cs a (ground arith) (ground arith)

  -- The link of the last node is set.
  pub Links-relink :
      (p : ℕ) (cs : Cells) (w v : ℕ)
      → Apart p cs
      → Links n d p cs w
      → Links (update n (last p cs) (some v)) d p cs v
  Links-relink p [] w v o h = ground arith
  Links-relink p ((q, l) ∷ cs) w v o h =
      let other = last-held q cs p (ground arith) (ground arith) in
      (ground arith, h.1, h.2, Links-relink q cs w v o.1 h.3)
