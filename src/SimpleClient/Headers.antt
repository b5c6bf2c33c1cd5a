-- ===== src/SimpleClient/Headers.antt =====
-- The pieces of the frame that `dhcp_discovery` injects, and the stores that put them in place.
use internet_applications.Base.{
  ℕ, ◌+◌, ◌%◌, ◌^◌, ◌≤◌, ◌<◌, ◌≡◌, refl, ap, sym, ◌∙◌, List, [], ◌∷◌, ◌++◌, append_assoc, Bytes, ok,
  length, length-append, length-take, length-drop, take, drop, drop-append_right, drop-drop,
  append-nil, replicate, arith,
}
use internet_applications.Words.{htonl, htons, bytes16, bytes32}
use internet_applications.Protocol
use internet_applications.Options.{store}
use internet_applications.Options.Scan.{Tlv, tlv, encode}
use internet_applications.Options.Fill.{store-append, encode-append, length-encode-append, wrote}
use internet_applications.SimpleClient.{
  load_bytes, fill_dhcp_option, dhcp_header, udp_header, ip_header, message_type_dhcp,
  dhcp_option_discover, message_type_req_ip, message_type_parameter_req_list, parameter_req_list,
  message_type_end,
}
use internet_applications.SimpleClient.Checksum.{in_cksum, sum_words, add_int, fold_carries}

-- The options of a discover, as they are written.
abbrev pub type_option : List Tlv
type_option = tlv message_type_dhcp (dhcp_option_discover ∷ []) ∷ []

abbrev pub address_option : List Tlv
address_option = type_option ++ tlv message_type_req_ip (bytes32 (htonl 0xc0a8010a)) ∷ []

abbrev pub list_option : List Tlv
list_option = address_option ++ tlv message_type_parameter_req_list parameter_req_list ∷ []

abbrev pub discovery_options : List Tlv
discovery_options = list_option ++ tlv message_type_end (0 ∷ []) ∷ []

pub load_bytes-le : (n : ℕ) (p : Bytes) → n ≤ length p → load_bytes n p ≡ ok (take n p)
unfolding load_bytes
load_bytes-le n p h = ground arith

pub length-dhcp_bytes : (mac : Bytes) → 16 ≤ length mac → length (dhcp_header (take 16 mac)) ≡ 240
unfolding dhcp_header bytes32
length-dhcp_bytes mac h = omega (
  arith,
  length-take 16 mac h,
  length-append (take 16 mac) (replicate 192 0 ++ bytes32 (htonl Protocol.dhcp_magic_cookie)),
)

pub length-udp_header : (len : ℕ) → 8 ≡ length (udp_header len)
unfolding udp_header bytes16
length-udp_header len = refl

pub length-ip_header : (len sum : ℕ) → 20 ≡ length (ip_header len sum)
unfolding ip_header bytes16 bytes32
length-ip_header len sum = refl

drop-prefix : (n : ℕ) (xs ys : Bytes) → length xs ≡ n → drop n (xs ++ ys) ≡ ys
drop-prefix n xs ys e = drop-append_right xs ys 0 n (omega arith)

-- Bytes in the middle that are replaced.
pub store-middle :
    (a old tail xs : Bytes) (i : ℕ)
    → length a ≡ i
    → length old ≡ length xs
    → store (a ++ (old ++ tail)) i xs ≡ ok (a ++ (xs ++ tail))
store-middle a old tail xs i e same =
    ap (λ n. store (a ++ (old ++ tail)) n xs) (sym e)
    ∙ store-append a (old ++ tail) xs (omega (arith, length-append old tail))
    ∙ rw (append_assoc, drop-prefix (length xs) old tail same) refl

pub fill_dhcp_option-wrote :
    (pre rest : Bytes) (os : List Tlv) (code : ℕ) (v : Bytes)
    → length pre ≡ 282
    → length v < 2 ^ 8
    → length (encode os) + (length v + 2) ≤ length rest
    → fill_dhcp_option (pre ++ (wrote os rest).0, length (encode os)) code v
      ≡ ok (pre ++ (wrote (os ++ tlv code v ∷ []) rest).0, length (encode (os ++ tlv code v ∷ [])))
unfolding fill_dhcp_option wrote
fill_dhcp_option-wrote pre rest os code v at short room =
    let n : length v % 2 ^ 8 ≡ length v = omega arith in
    let bytes = code ∷ length v ∷ v in
    let old = drop (length (encode os)) rest in
    let size : length (encode (os ++ tlv code v ∷ [])) ≡ length (encode os) + (length v + 2) =
      omega (arith, length-encode-append os (tlv code v ∷ []), length-append v []) in
    let place : length (pre ++ encode os) ≡ 282 + length (encode os) =
      omega (arith, length-append pre (encode os)) in
    let whole : encode (os ++ tlv code v ∷ []) ≡ encode os ++ bytes =
      encode-append os (tlv code v ∷ [])
      ∙ ap (λ b. encode os ++ (code ∷ length v ∷ b)) (append-nil v) in
    let put : store ((pre ++ encode os) ++ old) (282 + length (encode os)) bytes
        ≡ ok (((pre ++ encode os) ++ bytes) ++ drop (length bytes) old) =
      ap (λ n. store ((pre ++ encode os) ++ old) n bytes) (sym place)
      ∙ store-append (pre ++ encode os) old bytes
          (omega (arith, length-drop (length (encode os)) rest)) in
    rw (← append_assoc pre (encode os) old, n, put)
      (rw
        (
          size,
          whole,
          drop-drop (length (encode os)) (length bytes) (length (encode os) + (length v + 2)) rest
              (omega arith),
        )
        (simp append_assoc))

abbrev pub checksum : ℕ
checksum = 49321

pub sum-checksum : in_cksum (ip_header 286 0) ≡ ok checksum
unfolding in_cksum sum_words add_int fold_carries ip_header htons htonl bytes16 bytes32
sum-checksum = refl

-- Where the pointer `mac` has `chaddr`, the sixteen bytes behind it.
module _ (mac : Bytes) where
  abbrev pub dhcp_bytes : Bytes
  dhcp_bytes = dhcp_header (take 16 mac)

  abbrev pub ether_bytes : Bytes
  ether_bytes = replicate 6 0xff ++ (take 6 mac ++ (8 ∷ 0 ∷ []))

  -- The frame: three headers, the fixed part of the packet and the options.
  abbrev pub frame : Bytes
  frame =
      ether_bytes
      ++ (ip_header 286 checksum ++ (udp_header 266 ++ (dhcp_bytes ++ encode discovery_options)))

module _ (mac : Bytes) (readable : 16 ≤ length mac) where
  pub length-behind :
      length
        (ip_header 286 checksum ++ (udp_header 266 ++ (dhcp_bytes mac ++ encode discovery_options)))
      ≡ 286
  unfolding bytes32
  length-behind =
      let bytes = encode discovery_options in
      omega (
        arith,
        length-dhcp_bytes mac readable,
        length-udp_header 266,
        length-ip_header 286 checksum,
        length-append (ip_header 286 checksum) (udp_header 266 ++ (dhcp_bytes mac ++ bytes)),
        length-append (udp_header 266) (dhcp_bytes mac ++ bytes),
        length-append (dhcp_bytes mac) bytes,
      )

  pub length-ether : length (ether_bytes mac) ≡ 14
  length-ether =
      omega (arith, length-take 6 mac (omega arith), length-append (take 6 mac) (8 ∷ 0 ∷ []))
