-- ===== src/SimpleClient/Frame.antt =====
-- The frame that `dhcp_discovery` injects.
use internet_applications.Base.{
  ℕ, ◌+◌, ◌-◌, ◌≤◌, ◌≡◌, refl, ap, sym, ◌∙◌, [], ◌∷◌, ◌++◌, append_assoc, Bytes, ok, length,
  length-append, length-take, length-drop, take, drop, drop-drop, take-prefix, take-append-drop,
  arith,
}
use internet_applications.Words.{htonl, htons, bytes16, bytes32}
use internet_applications.Options.{store}
use internet_applications.Options.Scan.{encode}
use internet_applications.Options.Fill.{wrote, wrote-nil}
use internet_applications.SimpleClient.{
  load_bytes, fill_dhcp_option, fill_dhcp_discovery_options, dhcp_output, udp_header, udp_output,
  ip_header, ip_output, ether_output, dhcp_discovery, message_type_dhcp, dhcp_option_discover,
  message_type_req_ip, message_type_parameter_req_list, parameter_req_list, message_type_end,
}
use internet_applications.SimpleClient.Headers.{
  type_option, address_option, list_option, discovery_options, load_bytes-le, store-middle,
  fill_dhcp_option-wrote, checksum, sum-checksum, dhcp_bytes, ether_bytes, frame, length-ether,
  length-behind, length-dhcp_bytes, length-udp_header, length-ip_header,
}

-- The array as its regions, which are written from the last to the first.
module _ (a b c d rest mac : Bytes) (la : length a ≡ 14) (lb : length b ≡ 20) (lc : length c ≡ 8)
    (ld : length d ≡ 240) (room : 18 ≤ length rest) (readable : 16 ≤ length mac) where
  abbrev front : Bytes
  front = a ++ (b ++ (c ++ d))

  length-front : length front ≡ 282
  length-front =
      omega (arith, length-append a (b ++ (c ++ d)), length-append b (c ++ d), length-append c d)

  options-written :
      fill_dhcp_discovery_options (front ++ rest)
      ≡ ok (front ++ (wrote discovery_options rest).0, 18)
  unfolding fill_dhcp_discovery_options bytes32
  options-written =
      let first : fill_dhcp_option (front ++ rest, 0) message_type_dhcp (dhcp_option_discover ∷ [])
          ≡ ok (front ++ (wrote type_option rest).0, 3) =
        ap (λ r. fill_dhcp_option (front ++ r, 0) message_type_dhcp (dhcp_option_discover ∷ []))
          (sym (ap (λ w. w.0) (wrote-nil rest)))
        ∙ fill_dhcp_option-wrote front rest [] message_type_dhcp (dhcp_option_discover ∷ [])
            length-front (omega arith) (omega arith) in
      rw (
        first,
        fill_dhcp_option-wrote front rest type_option message_type_req_ip
            (bytes32 (htonl 0xc0a8010a)) length-front (omega arith) (omega arith),
        fill_dhcp_option-wrote front rest address_option message_type_parameter_req_list
            parameter_req_list length-front (omega arith) (omega arith),
        fill_dhcp_option-wrote front rest list_option message_type_end (0 ∷ []) length-front
            (omega arith) (omega arith),
      )

  -- The headers, from the last to the first.
  dhcp_written :
      (tail : Bytes)
      → dhcp_output mac (front ++ tail, 18) ≡ ok (a ++ (b ++ (c ++ (dhcp_bytes mac ++ tail))), 258)
  unfolding dhcp_output
  dhcp_written tail =
      let split : front ++ tail ≡ (a ++ (b ++ c)) ++ (d ++ tail) = simp append_assoc in
      rw
        (
          load_bytes-le 16 mac readable,
          split,
          store-middle (a ++ (b ++ c)) d tail (dhcp_bytes mac) 42
              (omega (arith, length-append a (b ++ c), length-append b c))
              (omega (arith, length-dhcp_bytes mac readable)),
        )
        (simp append_assoc)

  udp_written :
      (tail : Bytes)
      → udp_output (a ++ (b ++ (c ++ tail)), 258) ≡ ok (a ++ (b ++ (udp_header 266 ++ tail)), 266)
  unfolding udp_output
  udp_written tail =
      let split : a ++ (b ++ (c ++ tail)) ≡ (a ++ b) ++ (c ++ tail) = simp append_assoc in
      rw
        (
          split,
          store-middle (a ++ b) c tail (udp_header 266) 34 (omega (arith, length-append a b))
              (lc ∙ length-udp_header 266),
        )
        (simp append_assoc)

  ip_written :
      (tail : Bytes)
      → ip_output (a ++ (b ++ tail), 266) ≡ ok (a ++ (ip_header 286 checksum ++ tail), 286)
  unfolding ip_output
  ip_written tail =
      rw
        (
          sum-checksum,
          store-middle a b tail (ip_header 286 checksum) 14 la (lb ∙ length-ip_header 286 checksum),
        )
        refl

  ether_written :
      (tail more : Bytes)
      → length tail ≡ 286
      → ether_output mac (a ++ (tail ++ more), 286) ≡ ok (ether_bytes mac ++ tail)
  unfolding ether_output htons bytes16
  ether_written tail more size =
      let header = length-ether mac readable in
      let whole : length (ether_bytes mac ++ tail) ≡ 300 =
        omega (arith, header, length-append (ether_bytes mac) tail) in
      let put : store (a ++ (tail ++ more)) 0 (ether_bytes mac)
          ≡ ok (ether_bytes mac ++ (tail ++ more)) =
        store-middle [] a (tail ++ more) (ether_bytes mac) 0 refl (la ∙ sym header) in
      let cut : load_bytes 300 ((ether_bytes mac ++ tail) ++ more) ≡ ok (ether_bytes mac ++ tail) =
        load_bytes-le 300 ((ether_bytes mac ++ tail) ++ more)
          (omega (arith, whole, length-append (ether_bytes mac ++ tail) more))
        ∙ ap ok (take-prefix 300 (ether_bytes mac ++ tail) more whole) in
      rw (load_bytes-le 6 mac (omega arith), put)
        (ap (load_bytes 300) (sym (append_assoc (ether_bytes mac) tail more)) ∙ cut)

  regroup :
      (more : Bytes)
      → (ip_header 286 checksum ++ (udp_header 266 ++ (dhcp_bytes mac ++ encode discovery_options)))
          ++ more
        ≡ ip_header 286 checksum
          ++ (udp_header 266 ++ (dhcp_bytes mac ++ (encode discovery_options ++ more)))
  unfolding bytes32
  regroup more = simp append_assoc

  regions-frame : dhcp_discovery (front ++ rest) mac ≡ ok (frame mac)
  unfolding dhcp_discovery wrote bytes32
  regions-frame =
      let more = drop 18 rest in
      let bytes = encode discovery_options in
      let tail = ip_header 286 checksum ++ (udp_header 266 ++ (dhcp_bytes mac ++ bytes)) in
      rw (options-written) (
        rw
          (
            dhcp_written (bytes ++ more),
            udp_written (dhcp_bytes mac ++ (bytes ++ more)),
            ip_written (udp_header 266 ++ (dhcp_bytes mac ++ (bytes ++ more))),
          )
          (ap (λ x. ether_output mac (a ++ x, 286)) (sym (regroup more))
            ∙ ether_written tail more (length-behind mac readable)))

-- Regions of an array, one behind the other.
split-at : (m n k : ℕ) (xs : Bytes) → k ≡ m + n → drop m xs ≡ take n (drop m xs) ++ drop k xs
split-at m n k xs e =
    sym (take-append-drop n (drop m xs)) ∙ ap (λ l. take n (drop m xs) ++ l) (drop-drop m n k xs e)

-- Whatever the array on the stack held, which has at least 300 bytes, and for a pointer with at
-- least sixteen readable bytes behind it, the discover is one frame of 300 bytes: the broadcast
-- header, an IP header with its checksum, a UDP header from port 68 to port 67, the packet and its
-- options. It carries all sixteen bytes behind the pointer.
pub dhcp_discovery-frame :
    (packet mac : Bytes)
    → 300 ≤ length packet
    → 16 ≤ length mac
    → (dhcp_discovery packet mac ≡ ok (frame mac)) × (length (frame mac) ≡ 300)
dhcp_discovery-frame packet mac room readable =
    let a = take 14 packet in
    let b = take 20 (drop 14 packet) in
    let c = take 8 (drop 34 packet) in
    let d = take 240 (drop 42 packet) in
    let rest = drop 282 packet in
    let last = ap (λ l. c ++ l) (split-at 42 240 282 packet refl) in
    let whole : packet ≡ a ++ (b ++ (c ++ (d ++ rest))) =
      split-at 0 14 14 packet refl
      ∙ ap (λ l. a ++ l)
          (split-at 14 20 34 packet refl
            ∙ ap (λ l. b ++ l) (split-at 34 8 42 packet refl ∙ last)) in
    let flat : a ++ (b ++ (c ++ (d ++ rest))) ≡ (a ++ (b ++ (c ++ d))) ++ rest =
      simp append_assoc in
    let long : (i : ℕ) → length (drop i packet) ≡ length packet - i = λ i. length-drop i packet in
    (
      ap (λ p. dhcp_discovery p mac) (whole ∙ flat)
          ∙ regions-frame a b c d rest mac (length-take 14 packet (omega arith))
              (length-take 20 (drop 14 packet) (omega (arith, long 14)))
              (length-take 8 (drop 34 packet) (omega (arith, long 34)))
              (length-take 240 (drop 42 packet) (omega (arith, long 42))) (omega (arith, long 282))
              readable,
      omega (
        arith,
        length-ether mac readable,
        length-behind mac readable,
        length-append (ether_bytes mac) (
            ip_header 286 checksum
            ++ (udp_header 266 ++ (dhcp_bytes mac ++ encode discovery_options))),
      ),
    )
