-- ===== src/Exchange/Offered.antt =====
-- The simple client takes the address that the server offers.
use internet_applications.Base.{
  ℕ, zero, suc, ◌+◌, ◌/◌, ◌%◌, ◌^◌, ◌≤◌, ◌<◌, ◌≡◌, refl, ap, ◌∙◌, true, some, none, [], ◌∷◌, ◌++◌,
  Bytes, ok, length, length-append, take, drop, get_or, get_or-append_right, arith,
}
use internet_applications.Words.{AreBytes, at, htonl, ntohl, bytes16, bytes32}
use internet_applications.Protocol
use internet_applications.Protocol.{inaddr_broadcast, ip_address_pool_amount, dhcpoffer}
use internet_applications.Packet.{Packet, IsPacket, pack}
use internet_applications.Lease.Table.{find_mac}
use internet_applications.Lease.Allocate.{Covers}
use internet_applications.Lease.Check.{IsFree}
use internet_applications.Reply.{Server, Env, change_socket_setup}
use internet_applications.Reply.Written.{answer_with_times}
use internet_applications.Reply.Built.{with_options}
use internet_applications.Server
use internet_applications.Server.{round, reply}
use internet_applications.Server.Pool.{IsPooled}
use internet_applications.SimpleClient.{dhcp_discovery}
use internet_applications.SimpleClient.Headers.{frame}
use internet_applications.SimpleClient.Frame.{dhcp_discovery-frame}
use internet_applications.SimpleClient.Input.{Capture, whole, ether_input}
use internet_applications.SimpleClient.Input.Accepted.{accepts, Fields, ether_input-Fields}
use internet_applications.Exchange.Simple.{round-frame}

get_or-append_left : (xs ys : Bytes) (i : ℕ) → i < length xs → get_or (xs ++ ys) i 0 ≡ get_or xs i 0
get_or-append_left [] ys i h = absurd (omega arith)
get_or-append_left (x ∷ xs) ys zero h = refl
get_or-append_left (x ∷ xs) ys (suc i) h = get_or-append_left xs ys i (omega arith)

-- The three headers of a UDP datagram from the port of the server.
pub record FromServer (hd : Bytes) : Type 0 where
  pub size : length hd ≡ 42
  pub bytes : AreBytes hd
  pub kind_0 : at hd 12 ≡ 8
  pub kind_1 : at hd 13 ≡ 0
  pub protocol : at hd 23 ≡ 17
  pub port_0 : at hd 34 ≡ 0
  pub port_1 : at hd 35 ≡ 67

module _ (hd : Bytes) (h : FromServer hd) (p : Packet)
    (opcode : p.opcode ≡ Protocol.bootp_message_type_reply) where
  abbrev framed : Bytes
  framed = hd ++ take 300 (pack p)

  before : (i n : ℕ) → i < 42 → at hd i ≡ n → at framed i ≡ n
  before i n small e = get_or-append_left hd (take 300 (pack p)) i (omega (arith, h.size)) ∙ e

  behind : (i j : ℕ) → j ≡ 42 + i → at framed j ≡ at (take 300 (pack p)) i
  behind i j e = get_or-append_right hd (take 300 (pack p)) i j 0 (omega (arith, h.size))

  framed-accepts : accepts framed ≡ true
  unfolding pack
  framed-accepts =
      rw
        (
          before 12 8 (omega arith) h.kind_0,
          before 13 0 (omega arith) h.kind_1,
          before 23 17 (omega arith) h.protocol,
          before 34 0 (omega arith) h.port_0,
          before 35 67 (omega arith) h.port_1,
          behind 0 42 refl,
          opcode,
        )
        refl

  byte_0 : at framed 58 ≡ p.yiaddr % 256
  unfolding pack bytes16 bytes32
  byte_0 = behind 16 58 refl

  byte_1 : at framed 59 ≡ p.yiaddr / 256 % 256
  unfolding pack bytes16 bytes32
  byte_1 = behind 17 59 refl

  byte_2 : at framed 60 ≡ p.yiaddr / 2 ^ 16 % 256
  unfolding pack bytes16 bytes32
  byte_2 = behind 18 60 refl

  byte_3 : at framed 61 ≡ p.yiaddr / 2 ^ 24 % 256
  unfolding pack bytes16 bytes32
  byte_3 = behind 19 61 refl

  framed-Fields : Fields framed
  framed-Fields = record {
    kind_0 = omega (arith, before 12 8 (omega arith) h.kind_0);
    kind_1 = omega (arith, before 13 0 (omega arith) h.kind_1);
    port_0 = omega (arith, before 34 0 (omega arith) h.port_0);
    port_1 = omega (arith, before 35 67 (omega arith) h.port_1);
    addr_0 = omega (arith, byte_0);
    addr_1 = omega (arith, byte_1);
    addr_2 = omega (arith, byte_2);
    addr_3 = omega (arith, byte_3);
  }

  length-framed : 62 ≤ length framed
  unfolding pack bytes16 bytes32
  length-framed = omega (arith, length-append hd (take 300 (pack p)), h.size)

  -- A reply of the server, behind the headers of a UDP datagram from its port, is taken whatever its
  -- type, and its address is the one that is kept.
  ether_input-reply :
      (s : Capture)
      → ether_input (whole framed) s ≡ ok (record { ip = ntohl p.yiaddr; stopped = true })
  unfolding htonl
  ether_input-reply s =
      ether_input-Fields (whole framed) s framed-Fields length-framed (omega arith)
      ∙ rw (framed-accepts, byte_0, byte_1, byte_2, byte_3) refl

-- What the two programs do: the frame that is injected, the server's state and its offer, and the
-- address.
pub record Offered (e : Env) (s : Server) (packet mac hd : Bytes) (c : Capture) : Type 0 where
  pub injected : Bytes
  pub t : Server
  pub offer : Server.Sent
  pub address : ℕ
  pub sends : dhcp_discovery packet mac ≡ ok injected
  pub answers : round e (some (drop 42 injected)) s ≡ ok (t, some offer)
  pub everybody : offer.to_addr ≡ htonl inaddr_broadcast
  pub reads :
      ether_input (whole (hd ++ offer.payload)) c ≡ ok (record { ip = address; stopped = true })
  pub free : (later : ℕ) → e.check_time ≤ later → IsFree later t.leases address (take 16 mac)

-- Whatever the array on its stack held, of at least 300 bytes, the simple client sends a frame
-- whose UDP payload the server answers with an offer to everybody; of a frame with this offer,
-- behind the headers of a UDP datagram from the server's port and captured whole, the client keeps the address, and
-- the server may grant it to the client from then on. This holds if the fields of the server's
-- buffer are in range and its arrays have their sizes, its table of leases is well-formed with all
-- leases in the pool, and has room or knows the client, its draws cover the pool, and sixteen bytes
-- behind the pointer to the hardware address are readable.
pub simple_client-Offered :
    (e : Env) (s : Server) (packet mac hd : Bytes) (c : Capture)
    → IsPacket s.dhcp_recv
    → IsPooled s.leases
    → Covers e.random
    → (find_mac (take 16 mac) s.leases.lease_head ≡ none
        → s.leases.num_of_lease < ip_address_pool_amount)
    → 300 ≤ length packet
    → 16 ≤ length mac
    → FromServer hd
    → Offered e s packet mac hd c
unfolding reply change_socket_setup
simple_client-Offered e s packet mac hd c h pool covers room long readable wraps =
    let (t, run, offers) = round-frame e s h mac readable pool covers room in
    let a = with_options (answer_with_times dhcpoffer) t in
    let same : t.client_addr ≡ htonl inaddr_broadcast = ap (λ u. u.client_addr) offers.same in
    let opcode : t.dhcp_recv.opcode ≡ Protocol.bootp_message_type_reply =
      ap (λ u. u.dhcp_recv.opcode) offers.same in
    record {
      injected = frame mac;
      t = a;
      offer = record { to_addr = a.client_addr; payload = take 300 (pack a.dhcp_recv) };
      address = ntohl t.dhcp_recv.yiaddr;
      sends = (dhcp_discovery-frame packet mac long readable).0;
      answers = run;
      everybody = same;
      reads = ether_input-reply hd wraps a.dhcp_recv opcode c;
      free = offers.free;
    }
