-- ===== src/Options/Fill.antt =====
-- A buffer that `fill_dhcp_option` writes options into, one behind the other.
use internet_applications.Base.{
  ℕ, ◌+◌, ◌%◌, ◌^◌, ◌≤◌, ◌<◌, ◌≡◌, refl, sym, ap, ◌∙◌, ◌≢◌, Option, some, List, [], ◌∷◌, ◌++◌,
  append_assoc, append-nil, Bytes, ok, length, length-append, length-drop, take, drop, drop-drop,
  take-length-append, drop-append_right, arith,
}
use internet_applications.Options.{store, fill_dhcp_option, append_option, get_dhcp_option}
use internet_applications.Options.Scan.{
  Tlv, tlv, encode, find, NoPad, locate, get_dhcp_option-encode, get_dhcp_option-encode_at,
}

pub encode-append : (xs ys : List Tlv) → encode (xs ++ ys) ≡ encode xs ++ encode ys
encode-append [] ys = refl
encode-append (x ∷ xs) ys =
    ap (λ b. x.code ∷ length x.value ∷ b)
      (rw (encode-append xs ys) (sym (append_assoc x.value (encode xs) (encode ys))))

pub length-encode-append :
    (xs ys : List Tlv) → length (encode (xs ++ ys)) ≡ length (encode xs) + length (encode ys)
length-encode-append xs ys = ap length (encode-append xs ys) ∙ length-append (encode xs) (encode ys)

-- A buffer that held `old`, after the options `os` were written from its start, and their length.
unfoldable pub wrote : List Tlv → Bytes → Bytes × ℕ
wrote os old = (encode os ++ drop (length (encode os)) old, length (encode os))

pub wrote-nil : (old : Bytes) → wrote [] old ≡ (old, 0)
unfolding wrote
wrote-nil old = refl

-- A store behind a prefix.
pub store-append :
    (pre rest xs : Bytes)
    → length xs ≤ length rest
    → store (pre ++ rest) (length pre) xs ≡ ok (pre ++ xs ++ drop (length xs) rest)
unfolding store
store-append pre rest xs fits =
    rw (take-length-append, drop-append_right pre rest (length xs) (length pre + length xs) refl)
      (ground (arith, length-append pre rest))

-- One more option is one more entry of the list, if its length fits a byte and the buffer has room.
pub append_option-wrote :
    (os : List Tlv) (old : Bytes) (c : ℕ) (v : Bytes)
    → length v < 2 ^ 8
    → length (encode os) + 2 + length v ≤ length old
    → length old < 2 ^ 16
    → append_option (wrote os old) c v ≡ ok (wrote (os ++ tlv c v ∷ []) old)
unfolding append_option fill_dhcp_option wrote
append_option-wrote os old c v short fits small =
    let n : length v % 2 ^ 8 ≡ length v = omega arith in
    let bytes = c ∷ length v ∷ v in
    let room : length bytes ≤ length (drop (length (encode os)) old) =
      omega (arith, length-drop (length (encode os)) old) in
    let snoc : encode (os ++ tlv c v ∷ []) ≡ encode os ++ bytes =
      encode-append os (tlv c v ∷ []) ∙ ap (λ b. encode os ++ (c ∷ length v ∷ b)) (append-nil v) in
    let size : length (encode os ++ bytes) ≡ length (encode os) + (2 + length v) =
      omega (arith, length-append (encode os) bytes) in
    rw (n, store-append (encode os) (drop (length (encode os)) old) bytes room, snoc)
      (ground (
        arith,
        size,
        drop-drop (length (encode os)) (length bytes) (length (encode os ++ bytes)) old
            (omega arith),
      ))

pub length-wrote :
    (os : List Tlv) (old : Bytes)
    → length (encode os) ≤ length old
    → length (wrote os old).0 ≡ length old
unfolding wrote
length-wrote os old fits = omega (
  arith,
  length-append (encode os) (drop (length (encode os)) old),
  length-drop (length (encode os)) old,
)

-- Of options that were written into a buffer, none with the tag 0, the first one of any other tag is
-- found: its length is returned, and the pointer is at its bytes.
pub get_dhcp_option-wrote :
    (os : List Tlv) (old v : Bytes) (t : ℕ) (value : Option ℕ)
    → t ≢ 0
    → NoPad os
    → find t os ≡ some v
    → let b = (wrote os old).0 in
      (p : ℕ) × (get_dhcp_option b t value ≡ ok (length v, some p))
      × (take (length v) (drop p b) ≡ v)
unfolding wrote
get_dhcp_option-wrote os old v t value ne pad hit =
    get_dhcp_option-encode os (drop (length (encode os)) old) v t value ne pad hit

pub get_dhcp_option-wrote_at :
    (os : List Tlv) (old v : Bytes) (t : ℕ) (value : Option ℕ)
    → t ≢ 0
    → NoPad os
    → find t os ≡ some v
    → get_dhcp_option (wrote os old).0 t value ≡ ok (length v, some (locate t os + 2))
unfolding wrote
get_dhcp_option-wrote_at os old v t value ne pad hit =
    get_dhcp_option-encode_at os (drop (length (encode os)) old) v t value ne pad hit
