-- ===== src/Reply.antt =====
-- The state of dhcp-server.c and `construct_dhcp_packet`, which builds the reply in place in
-- `dhcp_recv`. Every use of `dhcp` there is the same object `dhcp_recv`.
pub mod Written
pub mod Kept
pub mod Built
pub mod Offer
pub mod Renewal
use internet_applications.Base.{
  ℕ, ◌+◌, ◌%◌, ◌^◌, Bool, true, false, not, ◌&&◌, Option, none, some, [], ◌∷◌, Bytes, Run, ok,
  or_fault, ◌>>=◌, ◌==◌, if◌then◌else◌, get_elem?, is_positive, is_negative, replicate,
}
use internet_applications.Words.{htonl, bytes32, load32}
use internet_applications.Protocol
use internet_applications.Protocol.{
  dhcpoffer, dhcpack, dhcpnak, dhcpinform, inaddr_any, inaddr_broadcast, dhcp_server_ip_address,
}
use internet_applications.Options.{get_dhcp_option, append_option}
use internet_applications.Packet.{Packet, unpack}
use internet_applications.Lease.{Leases, Random, check_ipaddr, allocate_ip, add_lease}

-- The globals. Of the two socket addresses only `sin_addr.s_addr` changes.
pub record Server : Type 0 where
  pub leases : Leases
  pub dhcp_recv : Packet
  pub server_addr : ℕ
  pub client_addr : ℕ

-- What one round reads from its surroundings: the time at each place that asks for it (none is
-- reached twice in a round), and the random draws.
pub record Env : Type 0 where
  pub flag_time : ℕ
  pub check_time : ℕ
  pub stamp_time : ℕ
  pub seed_time : ℕ
  pub random : Random

-- Updates of one field of `dhcp_recv`.
abbrev pub set_recv : Server → Packet → Server
set_recv s p = record s { dhcp_recv = p }

abbrev pub set_yiaddr : Server → ℕ → Server
set_yiaddr s a = set_recv s (record s.dhcp_recv { yiaddr = a })

unfoldable pub change_socket_setup : (server_addr client_addr : ℕ) → Server → Server
change_socket_setup server client s = record s {
  server_addr = htonl server;
  client_addr = htonl client;
}

-- `*(uint32_t *) option_value`
unfoldable pub load_value : Bytes → Option ℕ → Run ℕ
load_value options option_value = or_fault option_value >>= load32 options

-- `get_dhcp_option(…, OPTION_REQUESTED_IP, &option_value) == 4 && check_ipaddr(…) > 0`: the
-- requested address if both hold. The second value is `option_value` afterwards.
unfoldable pub requested_ip : (now : ℕ) → Server → Option ℕ → Run (Option ℕ × Option ℕ)
requested_ip now s option_value = do
  (n, value) ← get_dhcp_option s.dhcp_recv.options Protocol.option_requested_ip option_value
  if not (n == 4) then ok (none, value) else do
    ip ← load_value s.dhcp_recv.options value
    if is_positive (check_ipaddr now s.leases ip s.dhcp_recv.chaddr)
        then ok (some ip, value)
        else ok (none, value)

-- `allocate_ip(&offer_ip, dhcp->chaddr)`: the new state, the result, and `offer_ip`.
unfoldable pub allocate : Env → Server → Run (Server × Bool × Option ℕ)
allocate e s = do
  (leases, res, ip) ← allocate_ip e.random e.stamp_time e.seed_time s.leases s.dhcp_recv.chaddr
  ok (record s { leases = leases }, is_negative res, ip)

-- "Your (client) IP address": `false` is the early `return 0`.
unfoldable pub choose_yiaddr : Env → (state : ℕ) → Server → Run (Server × Bool)
choose_yiaddr e state s =
    if state == dhcpnak
    then ok (set_yiaddr s (htonl inaddr_any), true)
    else if state == dhcpoffer
    then (do
      (wanted, _) ← requested_ip e.check_time s none
      elim wanted [
        | some ip ↦ ok (set_yiaddr s ip, true)
        | none ↦ do
          (s', failed, offer_ip) ← allocate e s
          if failed
              then ok (s', false)
              else do a ← or_fault offer_ip; ok (set_yiaddr s' (htonl a), true)
      ])
    else if (state == dhcpack) && (s.dhcp_recv.ciaddr == htonl inaddr_any)
    then (do
      (_, value) ← get_dhcp_option s.dhcp_recv.options Protocol.option_requested_ip none
      ip ← load_value s.dhcp_recv.options value
      ok (
        set_yiaddr (record s { leases = add_lease e.stamp_time s.leases ip s.dhcp_recv.chaddr }) ip,
        true,
      ))
    else do
      (s', _, offer_ip) ← allocate e s
      a ← or_fault offer_ip
      ok (set_yiaddr s' (htonl a), true)

-- The options of a reply, written over those of the request. `msg_type` points into the same
-- buffer, and is read after the first six options are written.
unfoldable pub write_options : (state : ℕ) → (msg_type : Option ℕ) → Bytes → Run (Bytes × ℕ)
write_options state msg_type options = do
  w₁ ← append_option (options, 0) Protocol.option_dhcp_message_type (state ∷ [])
  w₂ ←
      append_option w₁ Protocol.option_dhcp_server_identifier
        (bytes32 (htonl dhcp_server_ip_address))
  w₃ ← append_option w₂ Protocol.option_vendor_class_identifier Protocol.dhcp_server_vendor_class_id
  w ←
      (if state == dhcpnak then ok w₃ else do
        w₄ ← append_option w₃ Protocol.option_subnet_mask (bytes32 (htonl Protocol.subnet_mask))
        w₅ ← append_option w₄ Protocol.option_router (bytes32 (htonl dhcp_server_ip_address))
        w₆ ←
            append_option w₅ Protocol.option_domain_name_server
              (bytes32 (htonl dhcp_server_ip_address))
        p ← or_fault msg_type
        m ← or_fault (get_elem? w₆.0 p)
        if m == dhcpinform then ok w₆ else do
          w₇ ←
              append_option w₆ Protocol.option_ip_address_lease_time
                (bytes32 (htonl Protocol.ip_address_lease_time))
          w₈ ←
              append_option w₇ Protocol.option_ip_t1_renewal_time
                (bytes32 (htonl Protocol.t1_renewal_time))
          append_option w₈ Protocol.option_ip_t2_rebind_time
              (bytes32 (htonl Protocol.t2_rebind_time)))
  append_option w Protocol.option_end (0 ∷ [])

-- The new state and the length of the packet, 0 if no address was left to offer.
unfoldable pub construct_dhcp_packet : Env → (state : ℕ) → Server → Run (Server × ℕ)
construct_dhcp_packet e state s₀ = do
  let s = set_recv s₀ (record s₀.dhcp_recv { opcode = Protocol.bootp_message_type_reply })
  (s₁, chosen) ← choose_yiaddr e state s
  if not chosen then ok (s₁, 0) else do
    let p = record s₁.dhcp_recv { giaddr = htonl dhcp_server_ip_address }
    (_, msg_type) ← get_dhcp_option p.options Protocol.option_dhcp_message_type none
    (options, len) ← write_options state msg_type p.options
    ok (set_recv s₁ (record p { options = options }), (Protocol.dhcp_fixed_non_udp + len) % 2 ^ 16)

-- The state after `dhcp_setup`: the globals start as zero bytes.
unfoldable pub dhcp_setup : Server
dhcp_setup = record {
  leases = record { lease_head = []; num_of_lease = 0 };
  dhcp_recv = unpack (replicate Protocol.sizeof_dhcp 0);
  server_addr = htonl inaddr_any;
  client_addr = htonl inaddr_broadcast;
}
