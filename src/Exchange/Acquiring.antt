-- ===== src/Exchange/Acquiring.antt =====
-- The client's side of the exchange that gets a lease.
use internet_applications.Base.{
  ℕ, suc, ◌%◌, ◌^◌, ◌≡◌, refl, Option, none, some, List, [], ◌∷◌, Bytes, ok, ==-refl, pos, length,
  arith,
}
use internet_applications.Words.{htonl, htonl-lt, bytes32, load32-bytes32}
use internet_applications.Protocol
use internet_applications.Protocol.{
  dhcpdiscover, dhcprequest, dhcpoffer, dhcpack, dhcpnak, dhcp_server_ip_address, inaddr_any,
  inaddr_broadcast,
}
use internet_applications.Packet.{Packet, receive}
use internet_applications.Options.Scan.{NoPad}
use internet_applications.Options.Fill.{wrote, get_dhcp_option-wrote, get_dhcp_option-wrote_at}
use internet_applications.Reply.Written.{answer_with_times}
use internet_applications.Request.{Pointer, read_option, load_byte, load_word, request_header}
use internet_applications.Client.{
  Device, Client, Sent, is_answer, await_reply, receive_reply, get_ip_address, send_packet, sendto,
  take_offer, take_server, take_ack, after_offer, dhcp_discover, new_xid, change_socket_setup,
}
use internet_applications.Client.Timers.{built, construct_dhcp_packet-built}
use internet_applications.Exchange.Asked.{asking}

abbrev pub here : ℕ
here = htonl dhcp_server_ip_address

-- The packet answers the request `xid`, with the options that the server writes over `old`.
pub record Answers (xid state : ℕ) (old : Bytes) (p : Packet) : Type 0 where
  pub opcode : p.opcode ≡ Protocol.bootp_message_type_reply
  pub xid_same : p.xid ≡ htonl xid
  pub options : p.options ≡ (wrote (answer_with_times state) old).0

answer-NoPad : (state : ℕ) → NoPad (answer_with_times state)
answer-NoPad state = (
  omega arith,
  (
    omega arith,
    (
      omega arith,
      (
        omega arith,
        (
          omega arith,
          (omega arith, (omega arith, (omega arith, (omega arith, (omega arith, tt))))),
        ),
      ),
    ),
  ),
)

pub await_reply-hit :
    (xid state : ℕ) (old d : Bytes) (buffer p : Packet) (inbox : List (Option Bytes))
    → receive d buffer ≡ p
    → Answers xid state old p
    → await_reply xid (some d ∷ inbox) buffer ≡ (some p, inbox)
unfolding await_reply is_answer
await_reply-hit xid state old d buffer p inbox got a = rw (got, a.opcode, a.xid_same, ==-refl) refl

-- The pointer that the option 54 of such a packet gives, and the word behind it.
read-server :
    (state : ℕ) (old : Bytes) (first : Option Pointer)
    → let b = (wrote (answer_with_times state) old).0 in
      (p : ℕ) × (read_option b Protocol.option_dhcp_server_identifier first ≡ ok (4, some (b, p)))
      × (load_word (some (b, p)) ≡ ok here)
unfolding read_option load_word bytes32
read-server state old first =
    let b = (wrote (answer_with_times state) old).0 in
    let (p, got, bytes) =
      get_dhcp_option-wrote (answer_with_times state) old (bytes32 here)
        Protocol.option_dhcp_server_identifier none (omega arith) (answer-NoPad state) refl in
    (p, rw (got) refl, load32-bytes32 b p here (htonl-lt dhcp_server_ip_address) bytes)

read-type :
    (state : ℕ) (old : Bytes) (first : Option Pointer)
    → let b = (wrote (answer_with_times state) old).0 in
      (read_option b Protocol.option_dhcp_message_type first ≡ ok (1, some (b, 2)))
      × (load_byte (some (b, 2)) ≡ ok state)
unfolding read_option load_byte wrote
read-type state old first =
    let got =
      get_dhcp_option-wrote_at (answer_with_times state) old (state ∷ [])
        Protocol.option_dhcp_message_type none (omega arith) (answer-NoPad state) refl in
    (rw (got) refl, refl)

module _ {K : Type 0} (dev : Device K) (mac : Bytes) (six : length mac ≡ 6) where
  pub send_packet-asking :
      (state a : ℕ) (s : Client K)
      → dev.get_hwaddr s.device ≡ some mac
      → get_ip_address dev s.device ≡ a
      → send_packet dev state s
        ≡ ok (
            some (
              tt,
              record s {
                sent =
                    record {
                      to_addr = s.server_addr;
                      payload = asking state s.dhcp_server_identifier a s.yiaddr s.xid mac six;
                    }
                    ∷ s.sent;
              },
            ))
  unfolding send_packet sendto built asking wrote request_header
  send_packet-asking state a s named has =
      rw (construct_dhcp_packet-built dev state mac s named, has) refl

module _ {K : Type 0} where
  take_offer-answer :
      (p : Packet) (old : Bytes) (s : Client K) (xid state : ℕ)
      → Answers xid state old p
      → (i : ℕ) × (take_offer p s
          ≡ ok (
              some (
                some ((wrote (answer_with_times state) old).0, i),
                record s { dhcp_server_identifier = here; yiaddr = p.yiaddr },
              )))
  unfolding take_offer
  take_offer-answer p old s xid state a =
      let (i, got, word) = read-server state old none in (i, rw (a.options, got, word) refl)

  pub take_ack-answer :
      (p : Packet) (old : Bytes) (first : Option Pointer) (s : Client K) (xid : ℕ)
      → Answers xid dhcpack old p
      → take_ack first (some p) s
        ≡ ok (some ((pos 0, some p), record s { dhcp_server_identifier = here }))
  unfolding take_ack take_server
  take_ack-answer p old first s xid a =
      let (got, byte) = read-type dhcpack old first in
      let (i, got', word) =
        read-server dhcpack old (some ((wrote (answer_with_times dhcpack) old).0, 2)) in
      rw (a.options, got, byte, got', word) refl

-- The state in which the first request is sent.
abbrev pub discovering : {K : Type 0} → Client K → Client K
discovering c = record c {
  xid = c.rand c.calls % 2 ^ 32;
  calls = suc c.calls;
  client_addr = htonl inaddr_any;
  server_addr = htonl inaddr_broadcast;
}

-- The two requests of a client that was offered the address `offer`.
module _ {K : Type 0} (c : Client K) (mac : Bytes) (six : length mac ≡ 6) where
  abbrev pub discovery : Bytes
  discovery = asking dhcpdiscover c.dhcp_server_identifier 0 c.yiaddr (discovering c).xid mac six

  abbrev pub request : (offer : ℕ) → Bytes
  request offer = asking dhcprequest here 0 offer (discovering c).xid mac six

  abbrev broadcast : Bytes → Sent
  broadcast d = record { to_addr = htonl inaddr_broadcast; payload = d }

  -- The state after the exchange.
  abbrev pub leased : (offer : ℕ) (rest : List (Option Bytes)) → Client K
  leased offer rest = record (discovering c) {
    dhcp_server_identifier = here;
    yiaddr = offer;
    sent = broadcast (request offer) ∷ broadcast discovery ∷ c.sent;
    inbox = rest;
  }

  -- An offer and an acknowledgement, the next two datagrams, complete the exchange.
  pub dhcp_discover_answered :
      (dev : Device K) (offered acked offer ack : Packet) (d d' old old' : Bytes)
      (rest : List (Option Bytes))
      → dev.get_hwaddr c.device ≡ some mac
      → get_ip_address dev c.device ≡ 0
      → c.inbox ≡ some d ∷ some d' ∷ rest
      → receive d offered ≡ offer
      → Answers (discovering c).xid dhcpoffer old offer
      → receive d' acked ≡ ack
      → Answers (discovering c).xid dhcpack old' ack
      → dhcp_discover dev offered acked c ≡ ok (some ((pos 0, some ack), leased offer.yiaddr rest))
  unfolding dhcp_discover after_offer new_xid change_socket_setup receive_reply
  dhcp_discover_answered dev offered acked offer ack d d' old old' rest named blank next got a got'
        a' =
      let c₁ = discovering c in
      let c₂ = record c₁ { sent = broadcast discovery ∷ c.sent; inbox = some d' ∷ rest } in
      let (i, took) = take_offer-answer offer old c₂ c₁.xid dhcpoffer a in
      let c₃ = record c₂ { dhcp_server_identifier = here; yiaddr = offer.yiaddr } in
      rw
        (
          send_packet-asking dev mac six dhcpdiscover 0 c₁ named blank,
          next,
          await_reply-hit c₁.xid dhcpoffer old d offered offer (some d' ∷ rest) got a,
          took,
          send_packet-asking dev mac six dhcprequest 0 c₃ named blank,
          await_reply-hit c₁.xid dhcpack old' d' acked ack rest got' a',
          take_ack-answer ack old' (some ((wrote (answer_with_times dhcpoffer) old).0, i))
              (leased offer.yiaddr rest) c₁.xid a',
        )
        refl
