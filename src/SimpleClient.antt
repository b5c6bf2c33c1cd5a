-- ===== src/SimpleClient.antt =====
-- simple-dhcp-client.c: a client that writes and reads whole Ethernet frames. A pointer into a frame is
-- an offset; the frame is `packet` of `dhcp_discovery`, with what the stack held before.
pub mod Checksum
pub mod Headers
pub mod Frame
pub mod Input
pub mod Program
use internet_applications.Base.{
  ℕ, ◌+◌, ◌-◌, ◌*◌, ◌/◌, ◌%◌, ◌^◌, [], ◌∷◌, ◌++◌, Bytes, Run, ok, fault, ◌>>=◌, leb, ◌==◌,
  if◌then◌else◌, length, take, replicate,
}
use internet_applications.Words.{htonl, htons, bytes16, bytes32}
use internet_applications.Protocol
use internet_applications.Protocol.{dhcp_client_port, dhcp_server_port}
use internet_applications.Options.{store}
use internet_applications.SimpleClient.Checksum.{in_cksum}

-- `DHCP_OPTION_DISCOVER`, and the tags of the options that are written.
abbrev pub dhcp_option_discover : ℕ
dhcp_option_discover = 1

abbrev pub message_type_req_ip : ℕ
message_type_req_ip = 50

abbrev pub message_type_dhcp : ℕ
message_type_dhcp = 53

abbrev pub message_type_parameter_req_list : ℕ
message_type_parameter_req_list = 55

abbrev pub message_type_end : ℕ
message_type_end = 255

abbrev pub parameter_req_list : Bytes
parameter_req_list = 1 ∷ 3 ∷ 6 ∷ 15 ∷ []

-- `ETHERTYPE_IP` and `IPPROTO_UDP` of the system's headers.
abbrev pub ethertype_ip : ℕ
ethertype_ip = 0x800

abbrev pub ipproto_udp : ℕ
ipproto_udp = 17

-- `sizeof` of the four headers, and where each begins.
abbrev pub sizeof_dhcp : ℕ
sizeof_dhcp = 240

abbrev pub ip_at : ℕ
ip_at = 14

abbrev pub udp_at : ℕ
udp_at = ip_at + 20

abbrev pub dhcp_at : ℕ
dhcp_at = udp_at + 8

abbrev pub options_at : ℕ
options_at = dhcp_at + sizeof_dhcp

-- `memcpy(dst, p, n)` reads `n` bytes from a pointer with the bytes `p` behind it.
unfoldable pub load_bytes : ℕ → Bytes → Run Bytes
load_bytes n p = if leb n (length p) then ok (take n p) else fault

-- `len += fill_dhcp_option(&dhcp->bp_options[len], code, data, sizeof(…))`
unfoldable pub fill_dhcp_option : Bytes × ℕ → (code : ℕ) (data_bytes : Bytes) → Run (Bytes × ℕ)
fill_dhcp_option (packet, len) code data_bytes = do
  packet' ← store packet (options_at + len) (code ∷ (length data_bytes % 2 ^ 8) ∷ data_bytes)
  ok (packet', len + (length data_bytes + 2))

unfoldable pub fill_dhcp_discovery_options : Bytes → Run (Bytes × ℕ)
fill_dhcp_discovery_options packet = do
  w₁ ← fill_dhcp_option (packet, 0) message_type_dhcp (dhcp_option_discover ∷ [])
  w₂ ← fill_dhcp_option w₁ message_type_req_ip (bytes32 (htonl 0xc0a8010a))
  w₃ ← fill_dhcp_option w₂ message_type_parameter_req_list parameter_req_list
  fill_dhcp_option w₃ message_type_end (0 ∷ [])

-- The structure that `dhcp_output` clears and fills.
unfoldable pub dhcp_header : (chaddr : Bytes) → Bytes
dhcp_header chaddr =
    Protocol.bootp_message_type_request ∷ Protocol.hardware_type ∷ 6 ∷ replicate 25 0
    ++ (chaddr ++ (replicate 192 0 ++ bytes32 (htonl Protocol.dhcp_magic_cookie)))

-- `DHCP_CHADDR_LEN` bytes are read from `mac`.
unfoldable pub dhcp_output : (mac : Bytes) → Bytes × ℕ → Run (Bytes × ℕ)
dhcp_output mac (packet, len) = do
  chaddr ← load_bytes 16 mac
  packet' ← store packet dhcp_at (dhcp_header chaddr)
  ok (packet', len + sizeof_dhcp)

unfoldable pub udp_header : (len : ℕ) → Bytes
udp_header len =
    bytes16 (htons dhcp_client_port)
    ++ (bytes16 (htons dhcp_server_port) ++ (bytes16 (htons len) ++ bytes16 0))

-- An odd length is rounded up.
unfoldable pub udp_output : Bytes × ℕ → Run (Bytes × ℕ)
udp_output (packet, len) = do
  let len' = (if len % 2 == 1 then len + 1 else len) + 8
  packet' ← store packet udp_at (udp_header len')
  ok (packet', len')

-- `ip_id` is the low half of `htonl(0xffff)`, a 32-bit word.
unfoldable pub ip_header : (len sum : ℕ) → Bytes
ip_header len sum =
    (4 * 16 + 5) ∷ 0x10 ∷ bytes16 (htons len)
    ++ (bytes16 (htonl 0xffff % 2 ^ 16)
        ++ (bytes16 0 ++ (16 ∷ ipproto_udp ∷ bytes16 sum ++ (bytes32 0 ++ bytes32 0xFFFFFFFF))))

-- The checksum is computed over the header with 0 in its place.
unfoldable pub ip_output : Bytes × ℕ → Run (Bytes × ℕ)
ip_output (packet, len) = do
  sum ← in_cksum (ip_header (len + 20) 0)
  packet' ← store packet ip_at (ip_header (len + 20) sum)
  ok (packet', len + 20)

-- What is injected: the first bytes of the frame, and their number.
unfoldable pub ether_output : (mac : Bytes) → Bytes × ℕ → Run Bytes
ether_output mac (packet, len) = do
  source ← load_bytes 6 mac
  packet' ← store packet 0 (replicate 6 0xff ++ (source ++ bytes16 (htons ethertype_ip)))
  load_bytes (len + 14) packet'

-- `packet` is the array on the stack, `mac` the bytes that lie behind the pointer.
unfoldable pub dhcp_discovery : (packet mac : Bytes) → Run Bytes
dhcp_discovery packet mac = do
  w₁ ← fill_dhcp_discovery_options packet
  w₂ ← dhcp_output mac w₁
  w₃ ← udp_output w₂
  w₄ ← ip_output w₃
  ether_output mac w₄
