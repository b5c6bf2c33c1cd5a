-- ===== src/Request.antt =====
-- The packets that dhcp-client.c builds, and how it reads the options of a reply.
pub mod Written
use internet_applications.Base.{
  ℕ, ◌+◌, not, ◌&&◌, ◌||◌, Option, none, some, [], ◌∷◌, ◌++◌, Bytes, Run, ok, fault, or_fault,
  ◌>>=◌, ◌==◌, if◌then◌else◌, get_elem?, replicate, take,
}
use internet_applications.Words.{htonl, htons, bytes32, load32}
use internet_applications.Protocol
use internet_applications.Protocol.{dhcprequest, dhcpdecline, dhcprelease, inaddr_any}
use internet_applications.Options.{get_dhcp_option, append_option}
use internet_applications.Packet.{Packet}

-- A pointer to a byte of a buffer, with the bytes that it is read from.
abbrev pub Pointer : Type 0
Pointer = Bytes × ℕ

-- `get_dhcp_option(&packet, …, &option_value)`
unfoldable pub read_option : Bytes → ℕ → Option Pointer → Run (ℕ × Option Pointer)
read_option options option_type old = do
  (n, value) ← get_dhcp_option options option_type none
  ok (n, elim value [ none ↦ old | some p ↦ some (options, p) ])

-- `*option_value`, and `memcpy(&x, option_value, 4)`.
unfoldable pub load_byte : Option Pointer → Run ℕ
load_byte none = fault
load_byte (some (b, p)) = or_fault (get_elem? b p)

unfoldable pub load_word : Option Pointer → Run ℕ
load_word none = fault
load_word (some (b, p)) = load32 b p

-- `get_dhcp_option(…, &option_value) != 4`, and the four bytes where it is 4.
unfoldable pub read_word : Bytes → (option_type : ℕ) → Run (Option ℕ)
read_word options option_type = do
  (n, value) ← read_option options option_type none
  if not (n == 4) then ok none else do a ← load_word value; ok (some a)

-- The fixed fields of a request; `memset` clears the rest. `ciaddr` is in network order.
unfoldable pub request_header : (state xid ciaddr : ℕ) → (mac : Bytes) → Packet
request_header state xid ciaddr mac = record {
  opcode = Protocol.bootp_message_type_request;
  htype = Protocol.hardware_type;
  hlen = Protocol.hardware_address_length;
  hops = 0;
  xid = htonl xid;
  secs = htons 0;
  flags = htons (
      if (state == dhcprelease) || (state == dhcpdecline)
      then Protocol.bootp_flags_unicast
      else Protocol.bootp_flags_broadcast);
  ciaddr = ciaddr;
  yiaddr = htonl inaddr_any;
  siaddr = htonl inaddr_any;
  giaddr = htonl inaddr_any;
  chaddr = take Protocol.hardware_address_length mac ++ replicate 10 0;
  sname = replicate 64 0;
  fname = replicate 128 0;
  magic_cookie = htonl Protocol.dhcp_magic_cookie;
  options = replicate Protocol.dhcp_max_option_len 0;
}

-- The options of a request: the server identifier where one is chosen, the requested address while
-- the interface has none, and the parameters that are asked for. The words are in network order.
unfoldable pub request_options : (state server ciaddr yiaddr : ℕ) → Bytes → Run (Bytes × ℕ)
request_options state server ciaddr yiaddr options = do
  w₁ ← append_option (options, 0) Protocol.option_dhcp_message_type (state ∷ [])
  w₂ ←
      (if (state == dhcprequest) || (state == dhcprelease)
        then append_option w₁ Protocol.option_dhcp_server_identifier (bytes32 server)
        else ok w₁)
  w₃ ←
      (if ciaddr == htonl inaddr_any
        then append_option w₂ Protocol.option_requested_ip (bytes32 yiaddr)
        else ok w₂)
  w₄ ←
      (if not (state == dhcprelease) && not (state == dhcpdecline)
        then (do
          w ← append_option w₃ Protocol.option_parameter_request_list Protocol.parameter_req_list
          append_option w Protocol.option_vendor_class_identifier
              Protocol.dhcp_client_vendor_class_id)
        else ok w₃)
  append_option w₄ Protocol.option_end (0 ∷ [])
