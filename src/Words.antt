-- ===== src/Words.antt =====
-- Words in memory and on the wire. The host is the little-endian Linux machine of the report; a
-- `uint32_t` is the number that the host reads, below 2 ^ 32, so `htonl` swaps its four bytes.
use internet_applications.Base.{
  ℕ, zero, suc, get_or, ◌+◌, ◌*◌, ◌/◌, ◌%◌, ◌^◌, ◌<◌, ◌≡◌, refl, Bytes, Run, ok, or_fault, ◌>>=◌,
  get_elem?, get_elem?-take, get_elem?-drop, take, drop, ap, sym, ◌∙◌, [], ◌∷◌, arith,
}

-- Every number of the list is a byte.
abbrev pub AreBytes : Bytes → Type 0
AreBytes [] = Unit
AreBytes (a ∷ w) = (a < 256) × AreBytes w

-- The byte at an offset, 0 behind the end.
abbrev pub at : Bytes → ℕ → ℕ
at b i = get_or b i 0

pub at-lt : (b : Bytes) (i : ℕ) → AreBytes b → at b i < 256
at-lt [] i h = omega arith
at-lt (x ∷ b) zero h = h.0
at-lt (x ∷ b) (suc i) h = at-lt b i h.1

pub four-same :
    {a b c d a' b' c' d' : ℕ}
    → a ≡ a'
    → b ≡ b'
    → c ≡ c'
    → d ≡ d'
    → ◌≡◌ {A = Bytes} (a ∷ b ∷ c ∷ d ∷ []) (a' ∷ b' ∷ c' ∷ d' ∷ [])
four-same p q r s = cc

-- `htonl` and `ntohl` are one function, and so are `htons` and `ntohs`.
unfoldable pub htonl : ℕ → ℕ
htonl x = x % 256 * 2 ^ 24 + x / 256 % 256 * 2 ^ 16 + x / 2 ^ 16 % 256 * 256 + x / 2 ^ 24 % 256

abbrev pub ntohl : ℕ → ℕ
ntohl = htonl

unfoldable pub htons : ℕ → ℕ
htons x = x % 256 * 256 + x / 256 % 256

abbrev pub ntohs : ℕ → ℕ
ntohs = htons

-- The four bytes of a `uint32_t` in memory, and the number that they are read as.
unfoldable pub bytes32 : ℕ → Bytes
bytes32 x = (x % 256) ∷ (x / 256 % 256) ∷ (x / 2 ^ 16 % 256) ∷ (x / 2 ^ 24 % 256) ∷ []

unfoldable pub word32 : (a b c d : ℕ) → ℕ
word32 a b c d = a + b * 256 + c * 2 ^ 16 + d * 2 ^ 24

unfoldable pub bytes16 : ℕ → Bytes
bytes16 x = (x % 256) ∷ (x / 256 % 256) ∷ []

-- `memcpy(&x, p, 4)` for an offset `p` into a buffer.
unfoldable pub load32 : Bytes → ℕ → Run ℕ
load32 b i = do
  w ← or_fault (get_elem? b i)
  x ← or_fault (get_elem? b (i + 1))
  y ← or_fault (get_elem? b (i + 2))
  z ← or_fault (get_elem? b (i + 3))
  ok (word32 w x y z)

pub htonl-htonl : (x : ℕ) → x < 2 ^ 32 → htonl (htonl x) ≡ x
unfolding htonl
htonl-htonl x h = omega arith

pub htonl-lt : (x : ℕ) → htonl x < 2 ^ 32
unfolding htonl
htonl-lt x = omega arith

pub htons-lt : (x : ℕ) → htons x < 2 ^ 16
unfolding htons
htons-lt x = omega arith

pub word32-bytes32 :
    (x : ℕ)
    → x < 2 ^ 32
    → word32 (x % 256) (x / 256 % 256) (x / 2 ^ 16 % 256) (x / 2 ^ 24 % 256) ≡ x
unfolding word32
word32-bytes32 x h = omega arith

pub word32-bytes16 : (x : ℕ) → x < 2 ^ 16 → word32 (x % 256) (x / 256 % 256) 0 0 ≡ x
unfolding word32
word32-bytes16 x h = omega arith

pub word32-lt : (a b c d : ℕ) → a < 256 → b < 256 → c < 256 → d < 256 → word32 a b c d < 2 ^ 32
unfolding word32
word32-lt a b c d p q r s = omega arith

-- Four bytes at an offset are the word that they encode.
pub load32-bytes32 :
    (b : Bytes) (p w : ℕ) → w < 2 ^ 32 → take 4 (drop p b) ≡ bytes32 w → load32 b p ≡ ok w
unfolding load32 bytes32
load32-bytes32 b p w short h =
    let byte : (j m : ℕ) → j < 4 → m ≡ p + j → get_elem? b m ≡ get_elem? (bytes32 w) j =
      λ j m small e.
        sym (get_elem?-take 4 (drop p b) j small ∙ get_elem?-drop p b j m e)
        ∙ ap (λ l. get_elem? l j) h in
    rw
      (
        byte 0 p (omega arith) (omega arith),
        byte 1 (p + 1) (omega arith) refl,
        byte 2 (p + 2) (omega arith) refl,
        byte 3 (p + 3) (omega arith) refl,
      )
      (ap ok (word32-bytes32 w short))
