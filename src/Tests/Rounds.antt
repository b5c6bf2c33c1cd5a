-- ===== src/Tests/Rounds.antt =====
-- Datagrams that reach the server.
use internet_applications.Base.{
  ℕ, true, sym, ap, ◌∙◌, replicate, ◌≡◌, ◌≤◌, refl, none, some, Option, ◌∷◌, Bytes, ok, arith, take,
  drop, get_elem?, Run, fault, out_of_fuel, ◌==◌, ◌&&◌, if◌then◌else◌,
}
use internet_applications.Words.{htonl, ntohl, bytes32, bytes16, load32, word32}
use internet_applications.Protocol
use internet_applications.Protocol.{dhcpack, dhcpnak, dhcpinform, inaddr_any, inaddr_broadcast}
use internet_applications.Options.{
  get_dhcp_option, scan, value_at, append_option, fill_dhcp_option, store,
}
use internet_applications.Packet.{pack, unpack, receive}
use internet_applications.Lease.{same_mac, add_lease, check_ipaddr, check_lease, stamp_lease}
use internet_applications.Lease.Table.{IsTable, lookup}
use internet_applications.Reply.{
  Env, Server, set_yiaddr, change_socket_setup, load_value, dhcp_setup, set_recv, choose_yiaddr,
  construct_dhcp_packet, requested_ip, write_options,
}
use internet_applications.Reply.Written.{refusal, answer_with_times}
use internet_applications.Reply.Offer.{MayOffer, choose_yiaddr-MayOffer}
use internet_applications.Reply.Built.{as_reply, with_options}
use internet_applications.Server.{
  Sent, reply, answer, unicast_setup, dispatch, selected_server, dhcp_handle_request,
  dhcp_handle_release, dhcp_handle_inform, handle, round,
}
use internet_applications.Server.Request.{AsksNew, request_granted, request_refused}
use internet_applications.Server.Release.{release_lem}
use internet_applications.Server.Inform.{inform_adds_unchecked, inform_times}
use internet_applications.Base.{Ensures}
use internet_applications.Server.Answered.{Fits, handle-Fits}
use internet_applications.Server.Bounded
use internet_applications.Server.Bounded.{num_of_lease_bounded}
use internet_applications.Server.Holders
use internet_applications.Server.Holders.{IsHeld, GivesBack, facing, Unreleased-IsHeld}
use internet_applications.Server.Invariant.{here, next, Reach-IsTable, dhcp_setup-IsTable}
use internet_applications.Server.Pool.{IsPooled, round-IsPooled}
use internet_applications.Server.Leases.{HasType}
use internet_applications.Tests.{
  first_ip, anns, ann, first_word, one_lease, no_leases, env, packet, wanting, serving,
}

abbrev asking : Server
asking = serving no_leases (packet 0 (wanting 3))

asking-AsksNew : AsksNew asking first_word
unfolding htonl get_dhcp_option scan value_at selected_server load_value load32 word32
asking-AsksNew = record {
  asks = record { size = refl; value = some 5; selected = refl; kind = refl };
  blank = refl;
  wanted = 11;
  found = refl;
  loaded = refl;
}

request_granted_example :
    let all = change_socket_setup inaddr_any inaddr_broadcast asking in
    let granted = record (as_reply all) {
      leases = add_lease 7 no_leases first_word asking.dhcp_recv.chaddr;
    } in
    dhcp_handle_request env asking
    ≡ ok (reply (with_options (answer_with_times dhcpack) (set_yiaddr granted first_word), 300))
unfolding check_ipaddr htonl check_lease
request_granted_example = request_granted env asking first_word asking-AsksNew refl

-- The address is leased to another client.
abbrev late : Server
late = serving one_lease (packet 0 (wanting 3))

late-AsksNew : AsksNew late first_word
unfolding htonl get_dhcp_option scan value_at selected_server load_value load32 word32
late-AsksNew = record {
  asks = record { size = refl; value = some 5; selected = refl; kind = refl };
  blank = refl;
  wanted = 11;
  found = refl;
  loaded = refl;
}

request_refused_example :
    dhcp_handle_request env late
    ≡ ok (
        reply (
          with_options (refusal dhcpnak) (
              set_yiaddr
                (as_reply (change_socket_setup inaddr_any inaddr_broadcast late))
                (htonl inaddr_any)),
          264,
        ))
unfolding check_ipaddr htonl check_lease same_mac
request_refused_example = request_refused env late first_word late-AsksNew refl

-- The holder of the lease gives it back.
abbrev leaving : Server
leaving = serving one_lease (record (packet first_word (wanting 7)) { chaddr = ann })

one_lease-IsTable : IsTable one_lease
one_lease-IsTable = record { counted = refl; unique = (refl, tt) }

leaving_selected : selected_server leaving ≡ ok (some Protocol.dhcp_server_ip_address, some 5)
unfolding htonl get_dhcp_option scan value_at selected_server load_value load32 word32
leaving_selected = refl

release_lem_example :
    (t : Server) × (dhcp_handle_release leaving ≡ ok (t, none))
    × ((b : ℕ)
        → lookup b t.leases.lease_head ≡ elim (lookup b one_lease.lease_head) [
          | none ↦ none
          | some l ↦ if (ntohl first_word == b) && same_mac l.chaddr ann then none else some l
        ])
release_lem_example =
    release_lem leaving (some Protocol.dhcp_server_ip_address) (some 5) one_lease-IsTable
      leaving_selected

-- What a run leaves and sends.
abbrev left_by : Run (Server × Option Sent) → Server
left_by (ok r) = r.0
left_by fault = dhcp_setup
left_by out_of_fuel = dhcp_setup

abbrev sent_by : Run (Server × Option Sent) → Option Sent
sent_by (ok r) = r.1
sent_by fault = none
sent_by out_of_fuel = none

abbrev datagram : Bytes
datagram = pack (packet 0 (wanting 3))

abbrev first_round : Run (Server × Option Sent)
first_round = round env (some datagram) dhcp_setup

first_round_ends : first_round ≡ ok (left_by first_round, sent_by first_round)
unfolding round handle receive unpack pack get_dhcp_option scan bytes32 bytes16 value_at dispatch
    dhcp_handle_request selected_server load_value load32 htonl word32 add_lease check_ipaddr
    check_lease stamp_lease append_option fill_dhcp_option store change_socket_setup choose_yiaddr
    construct_dhcp_packet requested_ip write_options answer reply unicast_setup dhcp_setup
    dhcp_handle_inform
first_round_ends = refl

Reach-IsTable_example : IsTable (left_by first_round).leases
Reach-IsTable_example =
    Reach-IsTable (next env (some datagram) here first_round_ends) dhcp_setup-IsTable

-- Bob is granted the address of Ann's lease, which has run out.
abbrev expired : Env
expired = record env { check_time = 100000 }

abbrev takeover : Run (Server × Option Sent)
takeover = round expired (some datagram) late

takeover_ends : takeover ≡ ok (left_by takeover, sent_by takeover)
unfolding round handle receive unpack pack get_dhcp_option scan bytes32 bytes16 value_at dispatch
    dhcp_handle_request selected_server load_value load32 htonl word32 add_lease check_ipaddr
    check_lease stamp_lease append_option fill_dhcp_option store change_socket_setup choose_yiaddr
    construct_dhcp_packet requested_ip write_options answer reply unicast_setup dhcp_handle_inform
takeover_ends = refl

not_given_back : ¬ GivesBack first_ip ann (facing late datagram)
unfolding receive unpack pack bytes32 bytes16 change_socket_setup same_mac
not_given_back g = absurd (let h = g.holder in cc)

Unreleased-IsHeld_example : IsHeld first_ip ann (left_by takeover).leases
Unreleased-IsHeld_example =
    Unreleased-IsHeld first_ip ann
      (Holders.next expired datagram Holders.here not_given_back takeover_ends)
      (record { table = one_lease-IsTable; lease = anns; there = refl; holder = refl })

empty-IsPooled : IsPooled dhcp_setup.leases
unfolding dhcp_setup
empty-IsPooled = record {
  table = record { counted = refl; unique = tt };
  pooled = λ a l there. absurd (cc);
}

not_inform :
    HasType
      (set_recv
        (change_socket_setup inaddr_any inaddr_broadcast dhcp_setup)
        (receive datagram dhcp_setup.dhcp_recv))
      dhcpinform
    → ⊥
unfolding get_dhcp_option scan value_at receive unpack pack dhcp_setup bytes32 bytes16
    change_socket_setup
not_inform (p, at, byte) =
    let second : 2 ≡ p = cc in
    let three : get_elem? (wanting 3) p ≡ some 3 = ap (get_elem? (wanting 3)) (sym second) in
    let same : some 3 ≡ some dhcpinform = sym three ∙ byte in cc

num_of_lease_bounded_example :
    (left_by first_round).leases.num_of_lease ≤ Protocol.ip_address_pool_amount
num_of_lease_bounded_example =
    num_of_lease_bounded
      (Bounded.next env datagram Bounded.starts (λ type. absurd (not_inform type)) first_round_ends)

-- A decline.
abbrev declining : Server
declining = serving one_lease (packet 0 (wanting 4))

handle-Fits_example : Ensures (Fits declining) (handle env declining)
handle-Fits_example = handle-Fits env declining

round-IsPooled_example : IsPooled (left_by first_round).leases
round-IsPooled_example =
    round-IsPooled env datagram dhcp_setup (left_by first_round) (sent_by first_round)
      (λ type. absurd (not_inform type)) empty-IsPooled first_round_ends

-- An inform that requests 192.168.1.2.
abbrev informing : Server
informing =
    serving no_leases
      (packet 0 (53 ∷ 1 ∷ 8 ∷ 50 ∷ 4 ∷ 192 ∷ 168 ∷ 1 ∷ 2 ∷ 255 ∷ 1 ∷ 0 ∷ replicate 1220 0))

abbrev informed : Run (Server × Option Sent)
informed = dhcp_handle_inform env informing

informed_ends : informed ≡ ok (left_by informed, sent_by informed)
unfolding round handle receive unpack pack get_dhcp_option scan bytes32 bytes16 value_at dispatch
    dhcp_handle_request selected_server load_value load32 htonl word32 add_lease check_ipaddr
    check_lease stamp_lease append_option fill_dhcp_option store change_socket_setup choose_yiaddr
    construct_dhcp_packet requested_ip write_options answer reply unicast_setup dhcp_setup
    dhcp_handle_inform
informed_ends = refl

inform_adds_unchecked_example :
    ((left_by informed).leases ≡ add_lease 7 no_leases 33663168 informing.dhcp_recv.chaddr)
    × ¬ IsPooled (left_by informed).leases
unfolding get_dhcp_option scan value_at load_value load32 word32 htonl
inform_adds_unchecked_example =
    inform_adds_unchecked env informing (left_by informed) (sent_by informed) 4 33663168 (some 5)
      refl refl refl refl (λ inside. omega (arith, inside.1)) informed_ends

informing_type : get_dhcp_option informing.dhcp_recv.options 53 none ≡ ok (1, some 2)
unfolding get_dhcp_option scan value_at
informing_type = refl

inform_times_example :
    (p : ℕ) × (get_dhcp_option (left_by informed).dhcp_recv.options 51 none ≡ ok (4, some p))
    × (take 4 (drop p (left_by informed).dhcp_recv.options)
        ≡ bytes32 (htonl Protocol.ip_address_lease_time))
inform_times_example =
    inform_times env informing (left_by informed) (sent_by informed) 1 refl informing_type
      informed_ends

-- A discover that asks for the first address.
abbrev seeking : Server
seeking = serving no_leases (packet 0 (wanting 1))

seeking_chosen :
    choose_yiaddr env Protocol.dhcpoffer seeking ≡ ok (set_yiaddr seeking first_word, true)
unfolding get_dhcp_option scan value_at load_value load32 word32 htonl check_ipaddr check_lease
    choose_yiaddr requested_ip
seeking_chosen = refl

no_leases-IsTable : IsTable no_leases
no_leases-IsTable = record { counted = refl; unique = tt }

choose_yiaddr-MayOffer_example : MayOffer env seeking first_word
choose_yiaddr-MayOffer_example =
    choose_yiaddr-MayOffer env seeking (set_yiaddr seeking first_word) no_leases-IsTable
      seeking_chosen
