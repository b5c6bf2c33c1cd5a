-- ===== src/SimpleClient/Checksum.antt =====
-- `in_cksum` of simple-dhcp-client.c.
pub mod Verify
use internet_applications.Base.{
  ℕ, ◌+◌, ◌-◌, ◌*◌, ◌/◌, ◌%◌, ◌^◌, [], ◌∷◌, Bytes, Run, ok, fault, ◌>>=◌, ltb, if◌then◌else◌,
}

-- `sum += n` on an `int` that is not negative: a sum of 2 ^ 31 and more is undefined.
unfoldable pub add_int : ℕ → ℕ → Run ℕ
add_int sum n = if ltb (sum + n) (2 ^ 31) then ok (sum + n) else fault

-- The loop over the words of the host, and the odd byte behind it.
unfoldable pub sum_words : Bytes → (sum : ℕ) → Run ℕ
sum_words [] sum = ok sum
sum_words (a ∷ []) sum = add_int sum a
sum_words (a ∷ b ∷ w) sum = do sum' ← add_int sum (a + b * 256); sum_words w sum'

-- The carries that are added back, and the complement, cut to 16 bits.
unfoldable pub fold_carries : ℕ → ℕ
fold_carries sum =
    let low = sum / 2 ^ 16 + sum % 2 ^ 16 in (2 ^ 16 - 1) - (low + low / 2 ^ 16) % 2 ^ 16

unfoldable pub in_cksum : Bytes → Run ℕ
in_cksum addr = do sum ← sum_words addr 0; ok (fold_carries sum)
