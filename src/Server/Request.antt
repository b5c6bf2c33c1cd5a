-- ===== src/Server/Request.antt =====
-- What the server does with a DHCPREQUEST that names it.
use internet_applications.Base.{
  ℕ, ◌≡◌, ◌≢◌, refl, true, false, Option, none, some, ok, length, arith, is_positive, ==-refl,
  ne→==, ap, ◌∙◌, Bool, Bool-cases, inl, inr, ◌&&◌, ◌==◌, if◌then◌else◌,
}
use internet_applications.Words.{htonl, ntohl, bytes32}
use internet_applications.Protocol
use internet_applications.Protocol.{
  dhcpack, dhcpnak, dhcpinform, inaddr_any, inaddr_broadcast, dhcp_server_ip_address,
}
use internet_applications.Options.{get_dhcp_option}
use internet_applications.Options.Scan.{get_dhcp_option_keeps}
use internet_applications.Options.Fill.{wrote}
use internet_applications.Lease.{add_lease, check_ipaddr}
use internet_applications.Reply.{
  Server, Env, set_yiaddr, change_socket_setup, load_value, requested_ip,
}
use internet_applications.Reply.Written.{refusal, answer_with_times}
use internet_applications.Reply.Built.{
  as_reply, with_options, construct_dhcp_packet-nak, construct_dhcp_packet-answer,
  choose_yiaddr-ack,
}
use internet_applications.Server.{
  reply, unicast_setup, answer, selected_server, dhcp_handle_request,
}

-- A request that names this server, with the message type as its first option.
pub record Asks (s : Server) : Type 0 where
  pub size : length s.dhcp_recv.options ≡ Protocol.dhcp_max_option_len
  pub value : Option ℕ
  pub selected : selected_server s ≡ ok (some dhcp_server_ip_address, value)
  pub kind :
      get_dhcp_option s.dhcp_recv.options Protocol.option_dhcp_message_type none ≡ ok (1, some 2)

-- A request of a client without an address for the address `ip`.
pub record AsksNew (s : Server) (ip : ℕ) : Type 0 where
  pub asks : Asks s
  pub blank : s.dhcp_recv.ciaddr ≡ htonl inaddr_any
  pub wanted : ℕ
  pub found :
      get_dhcp_option s.dhcp_recv.options Protocol.option_requested_ip none ≡ ok (4, some wanted)
  pub loaded : load_value s.dhcp_recv.options (some wanted) ≡ ok ip

-- The answer goes to the client alone if the flags ask for this, and the address passes the first of the two
-- checks.
abbrev pub alone : Env → Server → (ip : ℕ) → Bool
alone e s ip =
    (s.dhcp_recv.flags == htonl Protocol.bootp_flags_unicast)
    && is_positive (check_ipaddr e.flag_time s.leases ip s.dhcp_recv.chaddr)

abbrev pub facing : Env → Server → (ip : ℕ) → Server
facing e s ip =
    change_socket_setup (if alone e s ip then dhcp_server_ip_address else inaddr_any)
      (if alone e s ip then ntohl s.dhcp_recv.ciaddr else inaddr_broadcast) s

pub facing-broadcast :
    (e : Env) (s : Server) (ip : ℕ)
    → s.dhcp_recv.flags ≢ htonl Protocol.bootp_flags_unicast
    → facing e s ip ≡ change_socket_setup inaddr_any inaddr_broadcast s
facing-broadcast e s ip other =
    let no_flag = ne→== s.dhcp_recv.flags (htonl Protocol.bootp_flags_unicast) other in
    let not_alone : alone e s ip ≡ false =
      ap (λ b. b && is_positive (check_ipaddr e.flag_time s.leases ip s.dhcp_recv.chaddr))
        no_flag in
    ap
      (λ b.
        change_socket_setup (if b then dhcp_server_ip_address else inaddr_any)
          (if b then ntohl s.dhcp_recv.ciaddr else inaddr_broadcast) s)
      not_alone

module _ (e : Env) (s : Server) (ip : ℕ) (q : AsksNew s ip) where
  again :
      (old : Option ℕ)
      → get_dhcp_option s.dhcp_recv.options Protocol.option_requested_ip old ≡ ok (4, some q.wanted)
  again old =
      get_dhcp_option_keeps s.dhcp_recv.options Protocol.option_requested_ip 4 q.wanted old q.found

  request-answer : dhcp_handle_request e s ≡ answer e ip (facing e s ip)
  unfolding dhcp_handle_request unicast_setup requested_ip change_socket_setup
  request-answer =
      let chosen = q.asks.selected in
      let blank : (s.dhcp_recv.ciaddr == htonl inaddr_any) ≡ true =
        ap (λ a. a == htonl inaddr_any) q.blank ∙ ==-refl (htonl inaddr_any) in
      let value = again q.asks.value in
      let value' = again (some q.wanted) in
      elim (Bool-cases (s.dhcp_recv.flags == htonl Protocol.bootp_flags_unicast)) [
        | inr all ↦ rw (chosen, blank, all, value, q.loaded)
        | inl flag ↦
            elim (Bool-cases
              (is_positive (check_ipaddr e.flag_time s.leases ip s.dhcp_recv.chaddr))) [
                | inl good ↦ rw (chosen, blank, flag, value, q.loaded, good, value', q.loaded)
                | inr bad ↦ rw (chosen, blank, flag, value, q.loaded, bad, value', q.loaded)
              ]
      ]

  -- A request with an options field of full size, that names this server, with the message type as its
  -- first option, of a client without an address for an address that passes the check: its lease is
  -- added, and the acknowledgement carries it. It is sent to everybody, unless the flags ask for an answer to the client alone and the address
  -- passed the same check before: then it is sent to the address of the client, which is 0.0.0.0.
  pub request_granted :
      is_positive (check_ipaddr e.check_time s.leases ip s.dhcp_recv.chaddr) ≡ true
      → let granted = record (as_reply (facing e s ip)) {
        leases = add_lease e.stamp_time s.leases ip s.dhcp_recv.chaddr;
      } in
        dhcp_handle_request e s
        ≡ ok (reply (with_options (answer_with_times dhcpack) (set_yiaddr granted ip), 300))
  unfolding answer change_socket_setup wrote bytes32
  request_granted good =
      let u = facing e s ip in
      let chose = choose_yiaddr-ack e u q.asks.size 4 ip (some q.wanted) q.blank q.found q.loaded in
      rw (request-answer, good)
        (rw
          (construct_dhcp_packet-answer e u q.asks.size dhcpack 1 2 dhcpack _ (omega arith) chose
            refl q.asks.kind refl)
          refl)

  -- A request as above, but for an address that fails the check: the refusal carries no address, the leases
  -- stay, and it is sent to everybody, unless the flags ask for an answer to the client alone and the
  -- address passed the same check before.
  pub request_refused :
      is_positive (check_ipaddr e.check_time s.leases ip s.dhcp_recv.chaddr) ≡ false
      → let refused = set_yiaddr (as_reply (facing e s ip)) (htonl inaddr_any) in
        dhcp_handle_request e s ≡ ok (reply (with_options (refusal dhcpnak) refused, 264))
  unfolding answer change_socket_setup
  request_refused bad =
      rw (request-answer, bad)
        (rw (construct_dhcp_packet-nak e (facing e s ip) q.asks.size 1 2 q.asks.kind) refl)
