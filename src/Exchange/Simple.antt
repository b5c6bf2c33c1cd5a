-- ===== src/Exchange/Simple.antt =====
-- simple-dhcp-client.c and the server: the discover of the one, and the offer of the other.
use internet_applications.Base.{
  ℕ, ◌≤◌, ◌<◌, ◌≡◌, refl, ap, sym, ◌∙◌, false, Bool-cases, inl, inr, some, none, [], ◌∷◌, ◌++◌,
  append_assoc, append-nil, Bytes, ok, length, length-append, length-take, take, take-all, drop,
  drop-append_right, replicate, is_positive, arith,
}
use internet_applications.Words.{htonl, htonl-lt, bytes16, bytes32, load32-bytes32}
use internet_applications.Protocol
use internet_applications.Protocol.{
  dhcpdiscover, dhcpoffer, inaddr_any, inaddr_broadcast, ip_address_pool_amount,
}
use internet_applications.Options.{get_dhcp_option}
use internet_applications.Options.Scan.{encode, NoPad}
use internet_applications.Options.Fill.{
  wrote, length-wrote, get_dhcp_option-wrote, get_dhcp_option-wrote_at,
}
use internet_applications.Packet.{Packet, IsPacket, pack, receive}
use internet_applications.Packet.Transfer.{receive-wrote}
use internet_applications.Reply.{Server, Env, requested_ip, load_value, change_socket_setup}
use internet_applications.Reply.Built.{as_reply, with_options, construct_dhcp_packet-answer}
use internet_applications.Reply.Written.{answer_with_times}
use internet_applications.Lease.{check_ipaddr}
use internet_applications.Lease.Check.{check_ipaddr_iff}
use internet_applications.Lease.Table.{find_mac}
use internet_applications.Lease.Allocate.{Covers}
use internet_applications.Server.{
  round, handle, dispatch, reply, dhcp_handle_discover, unicast_setup,
}
use internet_applications.Server.Pool.{IsPooled}
use internet_applications.Server.Offering.{Offers, choose_yiaddr-Offers}
use internet_applications.Exchange.Arrived.{arrived}
use internet_applications.SimpleClient.{dhcp_header, udp_header, ip_header}
use internet_applications.SimpleClient.Headers.{
  discovery_options, checksum, ether_bytes, dhcp_bytes, frame, length-ether, length-udp_header,
  length-ip_header, length-dhcp_bytes,
}

-- The packet of a discover in a buffer whose options were `old`.
abbrev pub announced : (mac old : Bytes) → Packet
announced mac old = record {
  opcode = Protocol.bootp_message_type_request;
  htype = Protocol.hardware_type;
  hlen = 6;
  hops = 0;
  xid = 0;
  secs = 0;
  flags = 0;
  ciaddr = 0;
  yiaddr = 0;
  siaddr = 0;
  giaddr = 0;
  chaddr = take 16 mac;
  sname = replicate 64 0;
  fname = replicate 128 0;
  magic_cookie = htonl Protocol.dhcp_magic_cookie;
  options = (wrote discovery_options old).0;
}

options-NoPad : NoPad discovery_options
options-NoPad = (omega arith, (omega arith, (omega arith, (omega arith, tt))))

abbrev wanted : ℕ
wanted = htonl 0xc0a8010a

module _ (mac : Bytes) (readable : 16 ≤ length mac) where
  announced-IsPacket : (old : Bytes) → length old ≡ 1232 → IsPacket (announced mac old)
  unfolding bytes32
  announced-IsPacket old size = record {
    xid = omega arith;
    secs = omega arith;
    flags = omega arith;
    ciaddr = omega arith;
    yiaddr = omega arith;
    siaddr = omega arith;
    giaddr = omega arith;
    chaddr = length-take 16 mac readable;
    sname = refl;
    fname = refl;
    magic_cookie = htonl-lt Protocol.dhcp_magic_cookie;
    options = length-wrote discovery_options old (omega (arith, size)) ∙ size;
  }

  -- What lies behind the three headers of the frame.
  drop-frame : drop 42 (frame mac) ≡ dhcp_bytes mac ++ encode discovery_options
  drop-frame =
      let inside = udp_header 266 ++ (dhcp_bytes mac ++ encode discovery_options) in
      drop-append_right (ether_bytes mac) (ip_header 286 checksum ++ inside) 28 42
        (omega (arith, length-ether mac readable))
      ∙ drop-append_right (ip_header 286 checksum) inside 8 28
          (omega (arith, length-ip_header 286 checksum))
      ∙ drop-append_right (udp_header 266) (dhcp_bytes mac ++ encode discovery_options) 0 8
          (omega (arith, length-udp_header 266))

  pack-announced : pack (announced mac []) ≡ dhcp_bytes mac ++ encode discovery_options
  unfolding pack bytes16 bytes32 dhcp_header wrote
  pack-announced = simp (append_assoc, append-nil)

  -- The payload of the frame is the packet, for whoever receives it.
  receive-frame :
      (q : Packet) → IsPacket q → receive (drop 42 (frame mac)) q ≡ announced mac q.options
  unfolding bytes32
  receive-frame q h =
      let behind = dhcp_bytes mac ++ encode discovery_options in
      let size : length behind ≡ 258 = omega (
        arith,
        length-dhcp_bytes mac readable,
        length-append (dhcp_bytes mac) (encode discovery_options),
      ) in
      ap (λ d. receive d q)
        (drop-frame ∙ sym (ap (take 258) pack-announced ∙ take-all 258 behind size))
      ∙ receive-wrote (announced mac q.options) q discovery_options []
          (announced-IsPacket q.options h.options) h (omega arith)

-- The server, once the frame has arrived.
module _ (e : Env) (s : Server) (h : IsPacket s.dhcp_recv) (mac : Bytes)
    (readable : 16 ≤ length mac) where
  abbrev pub asked : Server
  asked = arrived s (announced mac s.dhcp_recv.options)

  type-found :
      get_dhcp_option asked.dhcp_recv.options Protocol.option_dhcp_message_type none
      ≡ ok (1, some 2)
  type-found =
      get_dhcp_option-wrote_at discovery_options s.dhcp_recv.options (1 ∷ [])
        Protocol.option_dhcp_message_type none (omega arith) options-NoPad refl

  handle-discover : handle e asked ≡ dhcp_handle_discover e asked
  unfolding handle dispatch wrote
  handle-discover = rw (type-found) refl

  -- The server takes it for a discover.
  round-discover : round e (some (drop 42 (frame mac))) s ≡ dhcp_handle_discover e asked
  unfolding round change_socket_setup
  round-discover = rw (receive-frame mac readable s.dhcp_recv h) handle-discover

  -- The address that it asks for, 192.168.1.10.
  wanted-found :
      (p : ℕ) × (get_dhcp_option asked.dhcp_recv.options Protocol.option_requested_ip none
        ≡ ok (4, some p))
      × (load_value asked.dhcp_recv.options (some p) ≡ ok wanted)
  unfolding load_value bytes32
  wanted-found =
      let (p, got, bytes) =
        get_dhcp_option-wrote discovery_options s.dhcp_recv.options (bytes32 wanted)
          Protocol.option_requested_ip none (omega arith) options-NoPad refl in
      (p, got, load32-bytes32 asked.dhcp_recv.options p wanted (htonl-lt 0xc0a8010a) bytes)

  -- It lies outside the pool, so it is never granted.
  wanted-refused :
      (now : ℕ) → is_positive (check_ipaddr now s.leases wanted asked.dhcp_recv.chaddr) ≡ false
  unfolding htonl
  wanted-refused now =
      elim (Bool-cases (is_positive (check_ipaddr now s.leases wanted asked.dhcp_recv.chaddr))) [
        | inr refused ↦ refused
        | inl granted ↦ absurd (
            omega (
              arith,
              ((check_ipaddr_iff now s.leases wanted asked.dhcp_recv.chaddr).0 granted).pooled,
            ))
      ]

  setup-refused :
      (p : ℕ) × (unicast_setup e (change_socket_setup inaddr_any inaddr_broadcast asked) none
        ≡ ok (asked, some p))
  unfolding unicast_setup requested_ip change_socket_setup htonl
  setup-refused =
      let (p, got, loaded) = wanted-found in (p, rw (got, loaded, wanted-refused e.flag_time) refl)

  -- The server answers it with an offer of another address, to everybody.
  pub round-frame :
      IsPooled s.leases
      → Covers e.random
      → (find_mac (take 16 mac) s.leases.lease_head ≡ none
          → s.leases.num_of_lease < ip_address_pool_amount)
      → (t : Server) × (round e (some (drop 42 (frame mac))) s
          ≡ ok (reply (with_options (answer_with_times dhcpoffer) t, 300)))
        × Offers e.check_time (as_reply asked) t
  unfolding dhcp_handle_discover bytes32 wrote change_socket_setup
  round-frame pool covers room =
      let (p, got, loaded) = wanted-found in
      let (t, chose, offers) =
        choose_yiaddr-Offers e (as_reply asked) pool covers room wanted p got loaded
          (htonl-lt 0xc0a8010a) in
      let (q, setup) = setup-refused in
      let size = (announced-IsPacket mac readable s.dhcp_recv.options h.options).options in
      (
        t,
        round-discover
            ∙ rw (setup) (
                rw
                  (construct_dhcp_packet-answer e asked size dhcpoffer 1 2 dhcpoffer t (omega arith)
                    chose (ap (λ x. x.dhcp_recv.options) offers.same) type-found refl)
                  refl),
        offers,
      )
