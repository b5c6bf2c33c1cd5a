-- ===== src/Options/Scan.antt =====
-- `get_dhcp_option` against the list of options that the bytes encode.
use internet_applications.Base.{
  ℕ, zero, suc, ◌+◌, ◌≤◌, ◌<◌, ◌≡◌, ◌≢◌, refl, ◌∙◌, ap, ◌⊎◌, inl, inr, Option, none, some, List, [],
  ◌∷◌, ◌++◌, Bytes, ok, out_of_fuel, Run-cases, ◌==◌, if◌then◌else◌, get_elem?,
  get_elem?-append_right, drop-append_right, take-length-append, append_assoc, get_elem?-lt-length,
  length, length-append, take, drop, arith, Bool-cases, Option-cases,
}
use internet_applications.Options.{scan, value_at, get_dhcp_option}

-- One option: a tag, and a value whose length is the length byte.
pub record Tlv : Type 0 where
  pub code : ℕ
  pub value : Bytes

abbrev pub tlv : ℕ → Bytes → Tlv
tlv c v = record { code = c; value = v }

abbrev pub encode : List Tlv → Bytes
encode [] = []
encode (o ∷ os) = o.code ∷ length o.value ∷ o.value ++ encode os

-- The value of the first option with the tag, and the offset of that option; the offset behind the
-- last option if there is none.
abbrev pub find : ℕ → List Tlv → Option Bytes
find t [] = none
find t (o ∷ os) = if o.code == t then some o.value else find t os

abbrev pub locate : ℕ → List Tlv → ℕ
locate t [] = 0
locate t (o ∷ os) = if o.code == t then 0 else 2 + length o.value + locate t os

-- No tag is 0, the byte at which the walk stops.
abbrev pub NoPad : List Tlv → Type 0
NoPad [] = Unit
NoPad (o ∷ os) = (o.code ≢ 0) × NoPad os

-- From the offset `i` on, the buffer reads as `s`.
abbrev pub ReadsAs : Bytes → ℕ → Bytes → Type 0
ReadsAs b i s = (j m : ℕ) → m ≡ i + j → get_elem? b m ≡ get_elem? s j

ReadsAs-append :
    (b : Bytes) (i k : ℕ) (xs s : Bytes) → k ≡ i + length xs → ReadsAs b i (xs ++ s) → ReadsAs b k s
ReadsAs-append b i k xs s e r j m f =
    r (length xs + j) m (omega arith) ∙ get_elem?-append_right xs s j (length xs + j) refl

ReadsAs-tail :
    (b : Bytes) (i : ℕ) (o : Tlv) (os : List Tlv) (rest : Bytes)
    → ReadsAs b i (encode (o ∷ os) ++ rest)
    → ReadsAs b (i + 1 + length o.value + 1) (encode os ++ rest)
ReadsAs-tail b i o os rest r j m e =
    r (2 + (length o.value + j)) m (omega arith)
    ∙ get_elem?-append_right (o.code ∷ length o.value ∷ []) ((o.value ++ encode os) ++ rest)
        (length o.value + j) (2 + (length o.value + j)) refl
    ∙ rw (append_assoc)
        (get_elem?-append_right o.value (encode os ++ rest) j (length o.value + j) refl)

-- Every round but the last reads two bytes, so rounds as many as bytes are enough.
scan-fuel :
    (fuel : ℕ) (b : Bytes) (t i : ℕ)
    → 0 < fuel
    → length b < fuel + i
    → scan fuel b t i ≢ out_of_fuel
unfolding scan
scan-fuel zero b t i p h = absurd (omega arith)
scan-fuel (suc k) b t i p h = elim (Option-cases (get_elem? b i)) [
  | inl e ↦ rw e (λ f. cc)
  | inr (x, e) ↦ rw e (elim (Option-cases (get_elem? b (i + 1))) [
    | inl e' ↦ rw e' (ground arith)
    | inr (n, e') ↦
        rw e' (ground (arith, get_elem?-lt-length b (i + 1) e', scan-fuel k b t (i + 1 + n + 1)))
  ])
]

-- Where the walk stops, the tag is the one that was asked for, or 0.
scan-tag :
    (fuel : ℕ) (b : Bytes) (t i j : ℕ)
    → scan fuel b t i ≡ ok j
    → (get_elem? b j ≡ some t) ⊎ (get_elem? b j ≡ some 0)
unfolding scan
scan-tag zero b t i j h = cc
scan-tag (suc k) b t i j h = elim (Option-cases (get_elem? b i)) [
  | inl e ↦ ground arith
  | inr (x, e) ↦ elim (Option-cases (get_elem? b (i + 1))) [
    | inl e' ↦ ground arith
    | inr (n, e') ↦ ground (arith, scan-tag k b t (i + 1 + n + 1) j)
  ]
]

scan-encode :
    (fuel : ℕ) (b : Bytes) (t i : ℕ) (os : List Tlv) (rest : Bytes)
    → length os < fuel
    → t ≢ 0
    → NoPad os
    → ReadsAs b i (encode os ++ rest)
    → (find t os ≡ none → get_elem? rest 0 ≡ some 0)
    → scan fuel b t i ≡ ok (i + locate t os)
unfolding scan
scan-encode zero b t i os rest f ne pad r stop = absurd (omega arith)
scan-encode (suc k) b t i [] rest f ne pad r stop =
    rw (r 0 i (omega arith), stop refl) (ground arith)
scan-encode (suc k) b t i (o ∷ os) rest f ne pad r stop =
    rw (r 0 i (omega arith), r 1 (i + 1) (omega arith))
      (ground (
        arith,
        scan-encode k b t (i + 1 + length o.value + 1) os rest (omega arith) ne pad.1
            (ReadsAs-tail b i o os rest r),
      ))

-- The walk always ends: it finds a tag, or leaves the buffer.
pub get_dhcp_option_total :
    (b : Bytes) (t : ℕ) (old : Option ℕ) → get_dhcp_option b t old ≢ out_of_fuel
unfolding get_dhcp_option value_at
get_dhcp_option_total b t old =
    grind (arith, scan-fuel (length b + 1) b t 0 (omega arith) (omega arith))

value_at-pointer :
    (b : Bytes) (t i n p : ℕ)
    → t ≢ 0
    → (get_elem? b i ≡ some t) ⊎ (get_elem? b i ≡ some 0)
    → value_at b i none ≡ ok (n, some p)
    → (p ≡ i + 2) × (get_elem? b i ≡ some t) × (get_elem? b (i + 1) ≡ some n)
unfolding value_at
value_at-pointer b t i n p ne stop h = ground arith

-- For a tag that is not 0, a pointer that the walk sets is two behind a byte with the tag, and the length stands between.
get_dhcp_option_pointer :
    (b : Bytes) (t n p : ℕ)
    → t ≢ 0
    → get_dhcp_option b t none ≡ ok (n, some p)
    → (i : ℕ) × (p ≡ i + 2) × (get_elem? b i ≡ some t) × (get_elem? b (i + 1) ≡ some n)
unfolding get_dhcp_option
get_dhcp_option_pointer b t n p ne h = elim (Run-cases (scan (length b + 1) b t 0)) [
  | inl (i, e) ↦
      let found : (p ≡ i + 2) × (get_elem? b i ≡ some t) × (get_elem? b (i + 1) ≡ some n) =
        value_at-pointer b t i n p ne (scan-tag (length b + 1) b t 0 i e) (rw e at h) in
      (i, found.0, found.1, found.2)
  | inr (inl e) ↦ absurd (ground arith)
  | inr (inr e) ↦ absurd (ground arith)
]

length-encode : (os : List Tlv) → length os ≤ length (encode os)
length-encode [] = omega arith
length-encode (o ∷ os) = omega (arith, length-encode os, length-append o.value (encode os))

locate-absent : (os : List Tlv) (t : ℕ) → find t os ≡ none → locate t os ≡ length (encode os)
locate-absent [] t h = refl
locate-absent (o ∷ os) t h = ground (arith, locate-absent os t, length-append o.value (encode os))

find-locate :
    (os : List Tlv) (rest v : Bytes) (t : ℕ)
    → find t os ≡ some v
    → let b = encode os ++ rest in
      (get_elem? b (locate t os) ≡ some t)
      × (get_elem? b (locate t os + 1) ≡ some (length v))
      × (take (length v) (drop (locate t os + 2) b) ≡ v)
find-locate [] rest v t h = cc
find-locate (o ∷ os) rest v t h = rw append_assoc (elim (Bool-cases (o.code == t)) [
  | inl e ↦
      let same : o.value ≡ v = ground arith in
      rw (e, ← same) (ground arith, refl, take-length-append o.value (encode os ++ rest))
  | inr e ↦
      let ih = find-locate os rest v t (ground arith) in
      let head = o.code ∷ length o.value ∷ o.value in
      rw e (
        get_elem?-append_right head (encode os ++ rest) (locate t os) _ (omega arith) ∙ ih.0,
        get_elem?-append_right head (encode os ++ rest) (locate t os + 1) _ (omega arith) ∙ ih.1,
        ap (take (length v))
              (drop-append_right head (encode os ++ rest) (locate t os + 2) _ (omega arith))
            ∙ ih.2,
      )
])

-- Where the value is found.
pub get_dhcp_option-encode_at :
    (os : List Tlv) (rest v : Bytes) (t : ℕ) (old : Option ℕ)
    → t ≢ 0
    → NoPad os
    → find t os ≡ some v
    → get_dhcp_option (encode os ++ rest) t old ≡ ok (length v, some (locate t os + 2))
unfolding get_dhcp_option value_at
get_dhcp_option-encode_at os rest v t old ne pad hit =
    let walk =
      scan-encode (length (encode os ++ rest) + 1) (encode os ++ rest) t 0 os rest
        (omega (arith, length-encode os, length-append (encode os) rest)) ne pad
        (λ j m e. ap (get_elem? (encode os ++ rest)) (omega arith)) (λ miss. cc) in
    ground (arith, walk, find-locate os rest v t hit)

-- Reading the bytes of an option list, followed by anything, finds the value of the first option
-- with the tag.
pub get_dhcp_option-encode :
    (os : List Tlv) (rest v : Bytes) (t : ℕ) (old : Option ℕ)
    → t ≢ 0
    → NoPad os
    → find t os ≡ some v
    → let b = encode os ++ rest in
      (p : ℕ) × (get_dhcp_option b t old ≡ ok (length v, some p)) × (take (length v) (drop p b) ≡ v)
get_dhcp_option-encode os rest v t old ne pad hit = (
  locate t os + 2,
  get_dhcp_option-encode_at os rest v t old ne pad hit,
  (find-locate os rest v t hit).2,
)

-- If no option of a list has the tag, none has the tag 0, and a zero byte follows, the walk returns 0
-- and leaves the pointer alone.
get_dhcp_option-encode_absent :
    (os : List Tlv) (rest : Bytes) (t : ℕ) (old : Option ℕ)
    → t ≢ 0
    → NoPad os
    → find t os ≡ none
    → get_dhcp_option (encode os ++ 0 ∷ rest) t old ≡ ok (0, old)
unfolding get_dhcp_option value_at
get_dhcp_option-encode_absent os rest t old ne pad miss =
    let walk =
      scan-encode (length (encode os ++ 0 ∷ rest) + 1) (encode os ++ 0 ∷ rest) t 0 os (0 ∷ rest)
        (omega (arith, length-encode os, length-append (encode os) (0 ∷ rest))) ne pad
        (λ j m e. ap (get_elem? (encode os ++ 0 ∷ rest)) (omega arith)) (λ miss. refl) in
    ground (
      arith,
      walk,
      locate-absent os t miss,
      get_elem?-append_right (encode os) (0 ∷ rest) 0 (locate t os),
    )

-- A value that is found does not depend on what the pointer was.
pub get_dhcp_option_again :
    (b : Bytes) (t n m p : ℕ) (old value : Option ℕ)
    → get_dhcp_option b t none ≡ ok (n, some p)
    → get_dhcp_option b t old ≡ ok (m, value)
    → (m ≡ n) × (value ≡ some p)
unfolding get_dhcp_option value_at
get_dhcp_option_again b t n m p old value h k = elim (Run-cases (scan (length b + 1) b t 0)) [
  | inl (i, e) ↦ ground arith
  | inr (inl e) ↦ absurd (ground arith)
  | inr (inr e) ↦ absurd (ground arith)
]

pub get_dhcp_option_keeps :
    (b : Bytes) (t n p : ℕ) (old : Option ℕ)
    → get_dhcp_option b t none ≡ ok (n, some p)
    → get_dhcp_option b t old ≡ ok (n, some p)
unfolding get_dhcp_option value_at
get_dhcp_option_keeps b t n p old h = elim (Run-cases (scan (length b + 1) b t 0)) [
  | inl (i, e) ↦ ground arith
  | inr (inl e) ↦ absurd (ground arith)
  | inr (inr e) ↦ absurd (ground arith)
]
