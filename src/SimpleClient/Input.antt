-- ===== src/SimpleClient/Input.antt =====
-- simple-dhcp-client.c: what a captured frame does, from `ether_input` down to `dhcp_input`.
pub mod Accepted
use internet_applications.Base.{
  ℕ, ◌+◌, ◌*◌, ◌/◌, ◌%◌, ◌^◌, Bool, true, false, not, List, [], ◌∷◌, Bytes, Run, ok, or_fault,
  ◌>>=◌, ◌==◌, if◌then◌else◌, get_elem?, length,
}
use internet_applications.Words.{ntohl, htons, ntohs, load32}
use internet_applications.Protocol
use internet_applications.Protocol.{dhcp_server_port}
use internet_applications.SimpleClient.{
  dhcp_discovery, load_bytes, ip_at, udp_at, dhcp_at, ethertype_ip, ipproto_udp,
}

-- The global `ip`, and whether `pcap_breakloop` was called.
pub record Capture : Type 0 where
  pub ip : ℕ
  pub stopped : Bool

-- A frame as libpcap gives it: the bytes that were captured, and `len` of its header, the length that it
-- had on the wire.
pub record Frame : Type 0 where
  pub captured : Bytes
  pub len : ℕ

abbrev pub whole : Bytes → Frame
whole b = record { captured = b; len = length b }

-- The bytes that are printed. A read behind those that were captured is a fault.
unfoldable pub print_packet : Bytes → (len : ℕ) → Run Bytes
print_packet packet_data len = load_bytes len packet_data

-- A 16-bit field.
unfoldable pub load16 : Bytes → ℕ → Run ℕ
load16 b i = do x ← or_fault (get_elem? b i); y ← or_fault (get_elem? b (i + 1)); ok (x + y * 256)

-- `DHCP_OPTION_OFFER`, with which the opcode is compared, is 2. A read behind the frame is a fault.
unfoldable pub dhcp_input : Bytes → Capture → Run Capture
dhcp_input frame s = do
  opcode ← or_fault (get_elem? frame dhcp_at)
  if not (opcode == 2) then ok s else do
    yiaddr ← load32 frame (dhcp_at + 16)
    ok (record { ip = ntohl yiaddr; stopped = true })

unfoldable pub udp_input : Bytes → Capture → Run Capture
udp_input frame s = do
  uh_sport ← load16 frame udp_at
  if ntohs uh_sport == dhcp_server_port then dhcp_input frame s else ok s

unfoldable pub ip_input : Bytes → Capture → Run Capture
ip_input frame s = do
  ip_p ← or_fault (get_elem? frame (ip_at + 9))
  if ip_p == ipproto_udp then udp_input frame s else ok s

-- `program_verbose_level` is `VERBOSE_LEVEL_DEBUG`, so every frame is printed.
unfoldable pub ether_input : Frame → Capture → Run Capture
ether_input frame s = do
  printed ← print_packet frame.captured frame.len
  ether_type ← load16 frame.captured 12
  if htons ether_type == ethertype_ip then ip_input frame.captured s else ok s

-- `pcap_loop(pcap_handle, -1, ether_input, NULL)` on the frames that arrive: one call after the other,
-- until one of them stops the loop.
unfoldable pub listen : List Frame → Capture → Run Capture
listen [] s = ok s
listen (frame ∷ frames) s = do
  s' ← ether_input frame s
  let rest = listen frames s'
  if s'.stopped then ok s' else rest

-- The four numbers that `main` prints, computed on a `u_int32_t`.
unfoldable pub octets : ℕ → Bytes
octets ip =
    (ip / 2 ^ 24)
    ∷ (ip * 2 ^ 8 % 2 ^ 32 / 2 ^ 24)
    ∷ (ip * 2 ^ 16 % 2 ^ 32 / 2 ^ 24)
    ∷ (ip * 2 ^ 24 % 2 ^ 32 / 2 ^ 24)
    ∷ []

-- `main` once the interface is open, on the frames that arrive: what it prints. Where they are used up
-- before one stops the loop, the real loop waits for more.
unfoldable pub main : (packet mac : Bytes) → List Frame → Run Bytes
main packet mac frames = do
  _ ← dhcp_discovery packet mac
  s ← listen frames (record { ip = 0; stopped = false })
  ok (octets s.ip)
