-- ===== src/Options.antt =====
-- The options field of a DHCP packet, after dhcp-project.h: `get_dhcp_option` walks the tags and
-- lengths, `fill_dhcp_option` writes one option. A pointer into the field is an offset.
pub mod Scan
pub mod Fill
use internet_applications.Base.{
  ℕ, zero, suc, ◌+◌, ◌%◌, ◌^◌, ◌||◌, Option, some, Bytes, Run, ok, fault, out_of_fuel, or_fault,
  ◌>>=◌, ◌==◌, leb, if◌then◌else◌, get_elem?, length, take, drop, ◌∷◌, ◌++◌,
}

-- The `while` loop of `get_dhcp_option` from the offset `i`.
unfoldable pub scan : ℕ → Bytes → ℕ → ℕ → Run ℕ
scan zero options option_type i = out_of_fuel
scan (suc fuel) options option_type i = do
  b ← or_fault (get_elem? options i)
  if (b == option_type) || (b == 0)
      then ok i
      else (or_fault (get_elem? options (i + 1)) >>= λ n.
          scan fuel options option_type (i + 1 + n + 1))

-- What follows the loop: the length, and the new value of `*option_value`, which is left as it was
-- (`none`: never set) if the walk stopped at a zero tag.
unfoldable pub value_at : Bytes → ℕ → Option ℕ → Run (ℕ × Option ℕ)
value_at options i option_value = do
  b ← or_fault (get_elem? options i)
  if b == 0
      then ok (0, option_value)
      else (or_fault (get_elem? options (i + 1)) >>= λ val_len. ok (val_len, some (i + 2)))

unfoldable pub get_dhcp_option : Bytes → ℕ → Option ℕ → Run (ℕ × Option ℕ)
get_dhcp_option options option_type option_value = do
  i ← scan (length options + 1) options option_type 0
  value_at options i option_value

-- `memcpy(&b[i], xs, length xs)`: a write that would leave the buffer is a fault.
unfoldable pub store : Bytes → ℕ → Bytes → Run Bytes
store b i xs =
    if leb (i + length xs) (length b) then ok (take i b ++ xs ++ drop (i + length xs) b) else fault

-- `packet` is `&options[at]`. Returns the buffer and the number of bytes written.
unfoldable pub fill_dhcp_option : Bytes → ℕ → ℕ → Bytes → Run (Bytes × ℕ)
fill_dhcp_option options at code value = do
  options' ← store options at (code ∷ (length value % 2 ^ 8) ∷ value)
  ok (options', (length value + 2) % 2 ^ 16)

-- `len += fill_dhcp_option(&options[len], …)`, on the buffer and `len`, a `uint16_t`.
unfoldable pub append_option : Bytes × ℕ → ℕ → Bytes → Run (Bytes × ℕ)
append_option (options, len) code value = do
  (options', n) ← fill_dhcp_option options len code value
  ok (options', (len + n) % 2 ^ 16)
