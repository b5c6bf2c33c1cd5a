-- ===== src/SimpleClient/Checksum/Verify.antt =====
-- The checksum against the sum of the 16-bit words that it stands for.
use internet_applications.Base.{
  ℕ, ◌+◌, ◌-◌, ◌*◌, ◌%◌, ◌^◌, ◌≤◌, ◌<◌, ◌≡◌, ap, ◌∙◌, [], ◌∷◌, ◌++◌, Bytes, ok, length, arith,
}
use internet_applications.Words.{AreBytes, bytes16}
use internet_applications.SimpleClient.Checksum.{add_int, sum_words, fold_carries, in_cksum}

-- The sum of the words, the first byte of each the low one.
abbrev pub words : Bytes → ℕ
words [] = 0
words (a ∷ []) = a
words (a ∷ b ∷ w) = a + b * 256 + words w

words-le : (w : Bytes) → AreBytes w → words w ≤ 2 ^ 15 * (length w + 1)
words-le [] h = omega arith
words-le (a ∷ []) h = omega (arith, h.0)
words-le (a ∷ b ∷ w) h = omega (arith, h.0, h.1, words-le w h.1.1)

sum_words-ok : (w : Bytes) (sum : ℕ) → sum + words w < 2 ^ 31 → sum_words w sum ≡ ok (sum + words w)
unfolding sum_words add_int
sum_words-ok [] sum h = ap ok (omega arith)
sum_words-ok (a ∷ []) sum h = ground arith
sum_words-ok (a ∷ b ∷ w) sum h = ground (arith, sum_words-ok w (sum + (a + b * 256)))

in_cksum-words : (w : Bytes) → words w < 2 ^ 31 → in_cksum w ≡ ok (fold_carries (words w))
unfolding in_cksum
in_cksum-words w h =
    rw (sum_words-ok w 0 (omega arith)) (ap (λ n. ok (fold_carries n)) (omega arith))

-- The checksum and the sum of the words are a multiple of 65535 together.
fold_carries-divides : (n : ℕ) → n < 2 ^ 31 → (n + fold_carries n) % 65535 ≡ 0
unfolding fold_carries
fold_carries-divides n h = omega arith

fold_carries-lt : (n : ℕ) → fold_carries n < 2 ^ 16
unfolding fold_carries
fold_carries-lt n = omega arith

fold_carries-positive : (n : ℕ) → 0 < n + fold_carries n
unfolding fold_carries
fold_carries-positive n = omega arith

fold_carries-zero : (n : ℕ) → 0 < n → n < 2 ^ 31 → n % 65535 ≡ 0 → fold_carries n ≡ 0
unfolding fold_carries
fold_carries-zero n h h' e = omega arith

words-append : (xs ys : Bytes) → length xs % 2 ≡ 0 → words (xs ++ ys) ≡ words xs + words ys
words-append [] ys h = omega arith
words-append (a ∷ []) ys h = absurd (omega arith)
words-append (a ∷ b ∷ w) ys h = omega (arith, words-append w ys (omega arith))

-- The words of a buffer with the word `c` between an even number of bytes and the rest.
words-between :
    (pre post : Bytes) (c : ℕ)
    → length pre % 2 ≡ 0
    → c < 2 ^ 16
    → words (pre ++ (bytes16 c ++ post)) ≡ words pre + c + words post
unfolding bytes16
words-between pre post c even short = omega (arith, words-append pre (bytes16 c ++ post) even)

-- A buffer of bytes with the word 0 at an even offset has a checksum, a 16-bit word; with that word in
-- place of the 0 its checksum is 0, which is what a receiver tests. The buffer has at most 65533 bytes,
-- so the sum does not overflow.
pub in_cksum_verifies :
    (pre post : Bytes)
    → AreBytes pre
    → AreBytes post
    → length pre % 2 ≡ 0
    → length pre + length post < 2 ^ 16 - 4
    → (c : ℕ) × (in_cksum (pre ++ (bytes16 0 ++ post)) ≡ ok c)
      × (c < 2 ^ 16)
      × (in_cksum (pre ++ (bytes16 c ++ post)) ≡ ok 0)
in_cksum_verifies pre post hp hq even small =
    let n = words pre + 0 + words post in
    let c = fold_carries n in
    let bound : n < 2 ^ 31 - 2 ^ 16 = omega (arith, words-le pre hp, words-le post hq) in
    let short : c < 2 ^ 16 = fold_carries-lt n in
    let blank : words (pre ++ (bytes16 0 ++ post)) ≡ n =
      words-between pre post 0 even (omega arith) in
    let filled : words (pre ++ (bytes16 c ++ post)) ≡ n + c =
      omega (arith, words-between pre post c even short) in
    (
      c,
      in_cksum-words (pre ++ (bytes16 0 ++ post)) (omega (arith, blank))
          ∙ ap (λ m. ok (fold_carries m)) blank,
      short,
      in_cksum-words (pre ++ (bytes16 c ++ post)) (omega (arith, filled, fold_carries-lt n))
          ∙ ap ok (
              fold_carries-zero (words (pre ++ (bytes16 c ++ post)))
                (omega (arith, filled, fold_carries-positive n))
                (omega (arith, filled, fold_carries-lt n))
                (rw filled (fold_carries-divides n (omega arith)))),
    )
