-- ===== src/Request/Written.antt =====
-- The options of a request, as the list that they encode.
use internet_applications.Base.{
  ℕ, ◌+◌, ◌^◌, ◌≤◌, ◌<◌, ◌≡◌, ◌∙◌, Bool, true, false, not, ◌&&◌, ◌||◌, List, [], ◌∷◌, ◌++◌, Bytes,
  ok, ◌>>=◌, ◌==◌, if◌then◌else◌, length, arith, append-nil, append_assoc, length-append, ap, ◌≢◌,
  Option, some, take, drop,
}
use internet_applications.Words.{htonl, bytes32}
use internet_applications.Protocol
use internet_applications.Protocol.{dhcprequest, dhcpdecline, dhcprelease, inaddr_any}
use internet_applications.Options.{append_option, get_dhcp_option}
use internet_applications.Options.Scan.{Tlv, tlv, encode, find, NoPad}
use internet_applications.Options.Fill.{
  wrote, wrote-nil, append_option-wrote, get_dhcp_option-wrote, length-encode-append,
}
use internet_applications.Request.{request_options}

-- The parts of a request that may be missing.
abbrev pub optional : Bool → List Tlv → List Tlv
optional b os = if b then os else []

abbrev kind : ℕ → List Tlv
kind state = tlv Protocol.option_dhcp_message_type (state ∷ []) ∷ []

abbrev named : ℕ → ℕ → List Tlv
named state server =
    kind state
    ++ optional ((state == dhcprequest) || (state == dhcprelease))
        (tlv Protocol.option_dhcp_server_identifier (bytes32 server) ∷ [])

abbrev wanted : (state server ciaddr yiaddr : ℕ) → List Tlv
wanted state server ciaddr yiaddr =
    named state server
    ++ optional (ciaddr == htonl inaddr_any)
        (tlv Protocol.option_requested_ip (bytes32 yiaddr) ∷ [])

abbrev listed : (state server ciaddr yiaddr : ℕ) → List Tlv
listed state server ciaddr yiaddr =
    wanted state server ciaddr yiaddr
    ++ optional (not (state == dhcprelease) && not (state == dhcpdecline)) (
        tlv Protocol.option_parameter_request_list Protocol.parameter_req_list
        ∷ tlv Protocol.option_vendor_class_identifier Protocol.dhcp_client_vendor_class_id
        ∷ [])

abbrev pub requested : (state server ciaddr yiaddr : ℕ) → List Tlv
requested state server ciaddr yiaddr =
    listed state server ciaddr yiaddr ++ tlv Protocol.option_end (0 ∷ []) ∷ []

length-snoc :
    (os : List Tlv) (o : Tlv)
    → length (encode (os ++ o ∷ [])) ≡ length (encode os) + (2 + length o.value)
length-snoc os o = length-encode-append os (o ∷ []) ∙ omega (arith, length-append o.value [])

-- The optional options take at most the room of all of them.
length-optional :
    (os : List Tlv) (b : Bool) (us : List Tlv)
    → length (encode (os ++ optional b us)) ≤ length (encode os) + length (encode us)
length-optional os true us = omega (arith, length-encode-append os us)
length-optional os false us = omega (arith, length-encode-append os [])

module _ (state server ciaddr yiaddr : ℕ) where
  length-named : length (encode (named state server)) ≤ 9
  unfolding bytes32
  length-named =
      length-optional (kind state) ((state == dhcprequest) || (state == dhcprelease))
        (tlv Protocol.option_dhcp_server_identifier (bytes32 server) ∷ [])

  length-wanted : length (encode (wanted state server ciaddr yiaddr)) ≤ 15
  unfolding bytes32
  length-wanted = omega (
    arith,
    length-named,
    length-optional (named state server) (ciaddr == htonl inaddr_any)
        (tlv Protocol.option_requested_ip (bytes32 yiaddr) ∷ []),
  )

  length-listed : length (encode (listed state server ciaddr yiaddr)) ≤ 36
  length-listed = omega (
    arith,
    length-wanted,
    length-optional (wanted state server ciaddr yiaddr)
        (not (state == dhcprelease) && not (state == dhcpdecline))
        (tlv Protocol.option_parameter_request_list Protocol.parameter_req_list
          ∷ tlv Protocol.option_vendor_class_identifier Protocol.dhcp_client_vendor_class_id
          ∷ []),
  )

pub length-requested :
    (state server ciaddr yiaddr : ℕ) → length (encode (requested state server ciaddr yiaddr)) ≤ 39
length-requested state server ciaddr yiaddr = omega (
  arith,
  length-listed state server ciaddr yiaddr,
  length-encode-append (listed state server ciaddr yiaddr) (tlv Protocol.option_end (0 ∷ []) ∷ []),
)

module _ (state server ciaddr yiaddr : ℕ) (options : Bytes)
    (size : length options ≡ Protocol.dhcp_max_option_len) where
  step :
      (os : List Tlv) (o : Tlv)
      → length o.value < 2 ^ 8
      → length (encode os) + 2 + length o.value ≤ Protocol.dhcp_max_option_len
      → append_option (wrote os options) o.code o.value ≡ ok (wrote (os ++ o ∷ []) options)
  step os o short room =
      append_option-wrote os options o.code o.value short (omega arith) (omega arith)

  step_if :
      (b : Bool) (os : List Tlv) (o : Tlv)
      → length o.value < 2 ^ 8
      → length (encode os) + 2 + length o.value ≤ Protocol.dhcp_max_option_len
      → (if b then append_option (wrote os options) o.code o.value else ok (wrote os options))
        ≡ ok (wrote (os ++ optional b (o ∷ [])) options)
  step_if true os o short room = step os o short room
  step_if false os o short room = rw append-nil

  step_both :
      (b : Bool) (os : List Tlv) (o u : Tlv)
      → length o.value < 2 ^ 8
      → length u.value < 2 ^ 8
      → length (encode os) + 4 + length o.value + length u.value ≤ Protocol.dhcp_max_option_len
      → (if b
          then (append_option (wrote os options) o.code o.value >>= λ w.
              append_option w u.code u.value)
          else ok (wrote os options))
        ≡ ok (wrote (os ++ optional b (o ∷ u ∷ [])) options)
  step_both true os o u short short' room = rw (step os o short (omega arith)) (
      step (os ++ o ∷ []) u short' (omega (arith, length-snoc os o))
      ∙ ap (λ l. ok (wrote l options)) (append_assoc os (o ∷ []) (u ∷ [])))
  step_both false os o u short short' room = rw append-nil

  -- What is written is the encoding of these options, for every message type.
  pub request_options-wrote :
      request_options state server ciaddr yiaddr options
      ≡ ok (wrote (requested state server ciaddr yiaddr) options)
  unfolding request_options bytes32
  request_options-wrote =
      let ask = (state == dhcprequest) || (state == dhcprelease) in
      let blank = ciaddr == htonl inaddr_any in
      let full = not (state == dhcprelease) && not (state == dhcpdecline) in
      rw (← wrote-nil options) (
        rw (
          step [] (tlv 53 (state ∷ [])) (omega arith) (omega arith),
          step_if ask (kind state) (tlv Protocol.option_dhcp_server_identifier (bytes32 server))
              (omega arith) (omega arith),
          step_if blank (named state server) (tlv Protocol.option_requested_ip (bytes32 yiaddr))
              (omega arith) (omega (arith, length-named state server ciaddr yiaddr)),
          step_both full (wanted state server ciaddr yiaddr)
              (tlv Protocol.option_parameter_request_list Protocol.parameter_req_list)
              (tlv Protocol.option_vendor_class_identifier Protocol.dhcp_client_vendor_class_id)
              (omega arith) (omega arith) (omega (arith, length-wanted state server ciaddr yiaddr)),
          step (listed state server ciaddr yiaddr) (tlv Protocol.option_end (0 ∷ [])) (omega arith)
              (omega (arith, length-listed state server ciaddr yiaddr)),
        ))

NoPad-append : (xs ys : List Tlv) → NoPad xs → NoPad ys → NoPad (xs ++ ys)
NoPad-append [] ys h h' = h'
NoPad-append (x ∷ xs) ys h h' = (h.0, NoPad-append xs ys h.1 h')

NoPad-optional : (b : Bool) (xs : List Tlv) → NoPad xs → NoPad (optional b xs)
NoPad-optional true xs h = h
NoPad-optional false xs h = tt

pub requested-NoPad :
    (state server ciaddr yiaddr : ℕ) → NoPad (requested state server ciaddr yiaddr)
requested-NoPad state server ciaddr yiaddr =
    let ask =
      NoPad-append (kind state)
        (optional ((state == dhcprequest) || (state == dhcprelease))
          (tlv Protocol.option_dhcp_server_identifier (bytes32 server) ∷ []))
        (omega arith, tt)
        (NoPad-optional ((state == dhcprequest) || (state == dhcprelease))
          (tlv Protocol.option_dhcp_server_identifier (bytes32 server) ∷ []) (omega arith, tt)) in
    let blank =
      NoPad-append (named state server)
        (optional (ciaddr == htonl inaddr_any)
          (tlv Protocol.option_requested_ip (bytes32 yiaddr) ∷ []))
        ask
        (NoPad-optional (ciaddr == htonl inaddr_any)
          (tlv Protocol.option_requested_ip (bytes32 yiaddr) ∷ []) (omega arith, tt)) in
    NoPad-append (listed state server ciaddr yiaddr) (tlv Protocol.option_end (0 ∷ []) ∷ [])
      (NoPad-append (wanted state server ciaddr yiaddr)
        (optional (not (state == dhcprelease) && not (state == dhcpdecline)) (
          tlv Protocol.option_parameter_request_list Protocol.parameter_req_list
          ∷ tlv Protocol.option_vendor_class_identifier Protocol.dhcp_client_vendor_class_id
          ∷ []))
        blank
        (NoPad-optional (not (state == dhcprelease) && not (state == dhcpdecline))
          (tlv Protocol.option_parameter_request_list Protocol.parameter_req_list
            ∷ tlv Protocol.option_vendor_class_identifier Protocol.dhcp_client_vendor_class_id
            ∷ [])
          (omega arith, (omega arith, tt))))
      (omega arith, tt)

-- In a buffer of the structure's size, a request always succeeds, and `get_dhcp_option` finds in it
-- each option of the list `requested`: the first one of a type, its length and its bytes.
pub request_options_read :
    (state server ciaddr yiaddr : ℕ) (options : Bytes) (t : ℕ) (v : Bytes) (value : Option ℕ)
    → length options ≡ Protocol.dhcp_max_option_len
    → t ≢ 0
    → find t (requested state server ciaddr yiaddr) ≡ some v
    → (w : Bytes × ℕ) × (request_options state server ciaddr yiaddr options ≡ ok w)
      × (p : ℕ) × (get_dhcp_option w.0 t value ≡ ok (length v, some p))
      × (take (length v) (drop p w.0) ≡ v)
request_options_read state server ciaddr yiaddr options t v value size ne hit =
    let os = requested state server ciaddr yiaddr in
    let (p, found, bytes) =
      get_dhcp_option-wrote os options v t value ne (requested-NoPad state server ciaddr yiaddr)
        hit in
    (
      wrote os options,
      request_options-wrote state server ciaddr yiaddr options size,
      p,
      found,
      bytes,
    )
