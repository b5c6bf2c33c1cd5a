-- ===== src/Server.antt =====
-- dhcp-server.c: the handlers, and one round of the loop of `main`.
pub mod Leases
pub mod Holders
pub mod Invariant
pub mod Pool
pub mod Answered
pub mod Bounded
pub mod Offering
pub mod Inform
pub mod Request
pub mod Renewing
pub mod Release
use internet_applications.Base.{
  ℕ, Bool, false, not, Option, none, some, Bytes, Run, ok, or_fault, ◌>>=◌, ◌==◌, if◌then◌else◌,
  get_elem?, take, is_positive,
}
use internet_applications.Words.{htonl, ntohl}
use internet_applications.Protocol
use internet_applications.Protocol.{
  dhcpdiscover, dhcpoffer, dhcprequest, dhcpack, dhcpnak, dhcprelease, dhcpinform, inaddr_any,
  inaddr_broadcast, dhcp_server_ip_address,
}
use internet_applications.Options.{get_dhcp_option}
use internet_applications.Packet.{pack, receive}
use internet_applications.Lease.{check_ipaddr, delete_lease}
use internet_applications.Reply.{
  Server, Env, set_recv, change_socket_setup, load_value, requested_ip, construct_dhcp_packet,
}

-- `sendto` of the first bytes of `dhcp_recv` to `dhcp_client_addr`.
pub record Sent : Type 0 where
  pub to_addr : ℕ
  pub payload : Bytes

-- `sendto(dhcp_socket, &dhcp_recv, size, 0, &dhcp_client_addr, …)`
unfoldable pub reply : Server × ℕ → Server × Option Sent
reply (s, size) =
    (s, some (record { to_addr = s.client_addr; payload = take size (pack s.dhcp_recv) }))

-- The test that precedes a unicast answer to a client with no address.
unfoldable pub unicast_setup : Env → Server → Option ℕ → Run (Server × Option ℕ)
unicast_setup e s value =
    if not (s.dhcp_recv.flags == htonl Protocol.bootp_flags_unicast) then ok (s, value) else do
      (wanted, value') ← requested_ip e.flag_time s value
      elim wanted [
        | some _ ↦
            ok (change_socket_setup dhcp_server_ip_address (ntohl s.dhcp_recv.ciaddr) s, value')
        | none ↦ ok (s, value')
      ]

unfoldable pub dhcp_handle_discover : Env → Server → Run (Server × Option Sent)
dhcp_handle_discover e s = do
  (s', _) ← unicast_setup e (change_socket_setup inaddr_any inaddr_broadcast s) none
  built ← construct_dhcp_packet e dhcpoffer s'
  ok (reply built)

-- Both branches of `dhcp_handle_request` end so: the answer to the check.
unfoldable pub answer : Env → (ip : ℕ) → Server → Run (Server × Option Sent)
answer e ip s = do
  built ←
      construct_dhcp_packet e
        (if is_positive (check_ipaddr e.check_time s.leases ip s.dhcp_recv.chaddr)
          then dhcpack
          else dhcpnak)
        s
  ok (reply built)

-- The server that the packet names, and `option_value` afterwards: `none` where the option is not
-- four bytes long.
unfoldable pub selected_server : Server → Run (Option ℕ × Option ℕ)
selected_server s = do
  (n, value) ← get_dhcp_option s.dhcp_recv.options Protocol.option_dhcp_server_identifier none
  if not (n == 4)
      then ok (none, value)
      else do a ← load_value s.dhcp_recv.options value; ok (some (ntohl a), value)

abbrev pub is_own : Option ℕ → Bool
is_own none = false
is_own (some a) = dhcp_server_ip_address == a

unfoldable pub dhcp_handle_request : Env → Server → Run (Server × Option Sent)
dhcp_handle_request e s = do
  (selected, value) ← selected_server s
  if not (is_own selected)
      then ok (s, none)
      else if s.dhcp_recv.ciaddr == htonl inaddr_any
      then (do
        (s', value') ← unicast_setup e (change_socket_setup inaddr_any inaddr_broadcast s) value
        (_, requested) ← get_dhcp_option s.dhcp_recv.options Protocol.option_requested_ip value'
        ip ← load_value s.dhcp_recv.options requested
        answer e ip s')
      else (answer e s.dhcp_recv.ciaddr
          (change_socket_setup dhcp_server_ip_address (ntohl s.dhcp_recv.ciaddr) s))

unfoldable pub dhcp_handle_release : Server → Run (Server × Option Sent)
dhcp_handle_release s = do
  (selected, _) ← selected_server s
  if not (is_own selected)
      then ok (s, none)
      else (ok
          (record s { leases = delete_lease s.leases s.dhcp_recv.ciaddr s.dhcp_recv.chaddr }, none))

unfoldable pub dhcp_handle_inform : Env → Server → Run (Server × Option Sent)
dhcp_handle_inform e s = do
  built ←
      construct_dhcp_packet e dhcpack
        (change_socket_setup dhcp_server_ip_address (ntohl s.dhcp_recv.ciaddr) s)
  ok (reply built)

-- The `switch` on the message type. A decline, and any other type, is only reported.
unfoldable pub dispatch : Env → ℕ → Server → Run (Server × Option Sent)
dispatch e msg_type s =
    if msg_type == dhcpdiscover
    then dhcp_handle_discover e s
    else if msg_type == dhcprequest
    then dhcp_handle_request e s
    else if msg_type == dhcprelease
    then dhcp_handle_release s
    else if msg_type == dhcpinform
    then dhcp_handle_inform e s
    else ok (s, none)

-- What follows a datagram that was received.
unfoldable pub handle : Env → Server → Run (Server × Option Sent)
handle e s =
    if not (s.dhcp_recv.opcode == Protocol.bootp_message_type_request) then ok (s, none) else do
      (n, value) ← get_dhcp_option s.dhcp_recv.options Protocol.option_dhcp_message_type none
      if not (n == 1) then ok (s, none) else do
        p ← or_fault value
        msg_type ← or_fault (get_elem? s.dhcp_recv.options p)
        dispatch e msg_type s

-- One round of the loop: `recvfrom` fails (`none`) or fills `dhcp_recv`.
unfoldable pub round : Env → Option Bytes → Server → Run (Server × Option Sent)
round e none s = ok (change_socket_setup inaddr_any inaddr_broadcast s, none)
round e (some datagram) s₀ =
    let s = change_socket_setup inaddr_any inaddr_broadcast s₀ in
    handle e (set_recv s (receive datagram s.dhcp_recv))
