-- ===== src/Client.antt =====
-- dhcp-client.c: the globals, what surrounds the process, and the exchanges of packets. The network
-- interface that the `ioctl` calls reach is a parameter.
pub mod Interface
pub mod Menu
pub mod Timers
pub mod Await
pub mod Reading
pub mod Leaving
pub mod Configuring
use internet_applications.Base.{
  ℕ, Bool, ◌+◌, ◌-◌, ◌%◌, ◌^◌, suc, not, ◌&&◌, Option, none, some, List, [], ◌∷◌, Bytes, ok,
  or_fault, ◌==◌, if◌then◌else◌, take, ℤ, pos, negsuc,
}
use internet_applications.Words.{htonl, ntohl}
use internet_applications.Protocol
use internet_applications.Protocol.{
  dhcpdiscover, dhcprequest, dhcpnak, dhcprelease, dhcpinform, inaddr_any, inaddr_broadcast,
}
use internet_applications.Packet.{Packet, pack, receive}
use internet_applications.Request.{
  Pointer, read_option, load_byte, load_word, request_header, request_options,
}
use internet_applications.Exec.{Exec, ◌>>=◌, ◌>>◌, pure, gets, lift, close_and_exit, modify}

-- The interface behind the socket: what `SIOCGIFHWADDR` and `SIOCGIFADDR` give (`none`: they fail),
-- and what `SIOCSIFADDR`, `SIOCSIFNETMASK` and `SIOCADDRT` do, with `false` where they fail.
pub record Device (K : Type 0) : Type 0 where
  pub get_hwaddr : K → Option Bytes
  pub get_addr : K → Option ℕ
  pub set_addr : ℕ → K → K × Bool
  pub set_netmask : ℕ → K → K × Bool
  pub add_route : ℕ → K → K × Bool

-- A datagram that was sent, and where.
pub record Sent : Type 0 where
  pub to_addr : ℕ
  pub payload : Bytes

-- The globals, the pending alarm (0: none), and what surrounds the process: the interface, the
-- datagrams sent so far (the last first), what the next calls of `recvfrom` give (`none`, and the
-- end of the list: the time-out), and what `rand` gives, with the number of calls so far.
pub record Client (K : Type 0) : Type 0 where
  pub lease_time : ℕ
  pub t1_time : ℕ
  pub t2_time : ℕ
  pub xid : ℕ
  pub yiaddr : ℕ
  pub dhcp_server_identifier : ℕ
  pub client_addr : ℕ
  pub server_addr : ℕ
  pub alarm : ℕ
  pub device : K
  pub sent : List Sent
  pub inbox : List (Option Bytes)
  pub rand : ℕ → ℕ
  pub calls : ℕ

-- The test of a received packet.
unfoldable pub is_answer : ℕ → Packet → Bool
is_answer xid p = (p.opcode == Protocol.bootp_message_type_reply) && (p.xid == htonl xid)

-- The loop around `recvfrom`, which fills `buffer`: the packet that answers, or `none` where a
-- call fails.
unfoldable pub await_reply :
    (xid : ℕ) (inbox : List (Option Bytes)) (buffer : Packet) → Option Packet × List (Option Bytes)
await_reply xid [] buffer = (none, [])
await_reply xid (none ∷ inbox) buffer = (none, inbox)
await_reply xid (some datagram ∷ inbox) buffer =
    let p = receive datagram buffer in
    let rest = await_reply xid inbox p in if is_answer xid p then (some p, inbox) else rest

module _ {K : Type 0} where
  -- The globals that `dhcp_setup` gives a value.
  unfoldable pub dhcp_setup : Client K → Client K
  dhcp_setup s = record s {
    yiaddr = htonl inaddr_any;
    server_addr = htonl inaddr_broadcast;
    client_addr = htonl inaddr_any;
  }

  -- `alarm(n)`, which also cancels the alarm before.
  unfoldable pub set_timer : ℕ → Exec (Client K) (Unit {0})
  set_timer n = modify (λ s. record s { alarm = n })

  unfoldable pub change_socket_setup : (client server : ℕ) → Exec (Client K) (Unit {0})
  change_socket_setup client server =
      modify (λ s. record s { client_addr = htonl client; server_addr = htonl server })

  -- `srand(time(NULL)); xid = (uint32_t) rand()`
  unfoldable pub new_xid : Exec (Client K) (Unit {0})
  new_xid = modify (λ s. record s { xid = s.rand s.calls % 2 ^ 32; calls = suc s.calls })

  -- `sendto(dhcp_socket, &packet, size, 0, &dhcp_server_addr, …)`
  unfoldable pub sendto : Packet × ℕ → Exec (Client K) (Unit {0})
  sendto (p, size) = modify (λ s. record s {
    sent = record { to_addr = s.server_addr; payload = take size (pack p) } ∷ s.sent;
  })

  unfoldable pub receive_reply : (buffer : Packet) → Exec (Client K) (Option Packet)
  receive_reply buffer s =
      let (p, inbox) = await_reply s.xid s.inbox buffer in ok (some (p, record s { inbox = inbox }))

  -- Option 54 of a reply, through the pointer `old` where the packet has none.
  unfoldable pub take_server : Packet → Option Pointer → Exec (Client K) (Unit {0})
  take_server p old = do
    (_, value) ← lift (read_option p.options Protocol.option_dhcp_server_identifier old)
    a ← lift (load_word value)
    modify (λ s. record s { dhcp_server_identifier = a })

  -- What follows the receipt of the offer.
  unfoldable pub take_offer : Packet → Exec (Client K) (Option Pointer)
  take_offer p = do
    (_, value) ← lift (read_option p.options Protocol.option_dhcp_server_identifier none)
    a ← lift (load_word value)
    _ ← modify (λ s. record s { dhcp_server_identifier = a; yiaddr = p.yiaddr })
    pure value

  -- The receipt of the last reply: the result of the exchange, and the packet.
  unfoldable pub take_ack : Option Pointer → Option Packet → Exec (Client K) (ℤ × Option Packet)
  take_ack old none = pure (negsuc 0, none)
  take_ack old (some p) = do
    (_, value) ← lift (read_option p.options Protocol.option_dhcp_message_type old)
    kind ← lift (load_byte value)
    if kind == dhcpnak
        then pure (pos 1, some p)
        else do _ ← take_server p value; pure (pos 0, some p)

module _ {K : Type 0} (dev : Device K) where
  pub get_mac_address : K → Option Bytes
  get_mac_address k = dev.get_hwaddr k

  -- In network order; 0 where the interface has none.
  unfoldable pub get_ip_address : K → ℕ
  get_ip_address k = elim (dev.get_addr k) [ none ↦ 0 | some a ↦ a ]

  -- The packet and its size; without a hardware address the socket is closed and the process
  -- ends.
  pub packet_from : (state : ℕ) → Option Bytes → Exec (Client K) (Packet × ℕ)
  packet_from state none = close_and_exit
  packet_from state (some mac) = do
    s ← gets (λ s. s)
    let p = request_header state s.xid (get_ip_address s.device) mac
    (options, len) ←
        lift (request_options state s.dhcp_server_identifier p.ciaddr s.yiaddr p.options)
    pure (
      record p { options = options },
      (Protocol.sizeof_dhcp - Protocol.dhcp_max_option_len + len) % 2 ^ 16,
    )

  pub construct_dhcp_packet : (state : ℕ) → Exec (Client K) (Packet × ℕ)
  construct_dhcp_packet state = gets (λ s. get_mac_address s.device) >>= packet_from state

  unfoldable pub send_packet : (state : ℕ) → Exec (Client K) (Unit {0})
  send_packet state = construct_dhcp_packet state >>= sendto

  -- The second half of the exchange.
  unfoldable pub after_offer :
      (acked : Packet) → Option Packet → Exec (Client K) (ℤ × Option Packet)
  after_offer acked none = pure (negsuc 0, none)
  after_offer acked (some p) = do
    value ← take_offer p
    _ ← send_packet dhcprequest
    ack ← receive_reply acked
    take_ack value ack

  -- `offered` and `acked` are the bytes on the stack before the first call of `recvfrom`.
  unfoldable pub dhcp_discover : (offered acked : Packet) → Exec (Client K) (ℤ × Option Packet)
  dhcp_discover offered acked = do
    _ ← new_xid
    _ ← change_socket_setup inaddr_any inaddr_broadcast
    _ ← send_packet dhcpdiscover
    offer ← receive_reply offered
    after_offer acked offer

  -- The three exchanges of one packet that expect an answer; `server` in host order.
  unfoldable pub exchange :
      (state server : ℕ) (acked : Packet) → Exec (Client K) (ℤ × Option Packet)
  exchange state server acked = do
    _ ← new_xid
    ip ← gets (λ s. get_ip_address s.device)
    _ ← change_socket_setup (ntohl ip) server
    _ ← send_packet state
    ack ← receive_reply acked
    take_ack none ack

  pub dhcp_inform : Packet → Exec (Client K) (ℤ × Option Packet)
  dhcp_inform = exchange dhcpinform inaddr_broadcast

  unfoldable pub dhcp_renew : Packet → Exec (Client K) (ℤ × Option Packet)
  dhcp_renew acked =
      gets (λ s. s.dhcp_server_identifier) >>= λ server. exchange dhcprequest (ntohl server) acked

  unfoldable pub dhcp_rebind : Packet → Exec (Client K) (ℤ × Option Packet)
  dhcp_rebind = exchange dhcprequest inaddr_broadcast

  unfoldable pub dhcp_release : Exec (Client K) (Unit {0})
  dhcp_release = do
    _ ← new_xid
    s ← gets (λ s. s)
    _ ← change_socket_setup (ntohl (get_ip_address s.device)) (ntohl s.dhcp_server_identifier)
    send_packet dhcprelease
