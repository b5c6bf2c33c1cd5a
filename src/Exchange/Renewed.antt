-- ===== src/Exchange/Renewed.antt =====
-- The modes of the client that renew and rebind its lease, against the server.
use internet_applications.Base.{
  ℕ, suc, ◌%◌, ◌^◌, ◌≡◌, refl, ap, ◌∙◌, ◌++◌, none, some, Option, List, ◌∷◌, Bytes, ok, length,
  take, replicate, pos, arith,
}
use internet_applications.Words.{htonl, ntohl, htonl-lt, htonl-htonl}
use internet_applications.Protocol.{dhcprequest, dhcpack, dhcp_server_ip_address, inaddr_broadcast}
use internet_applications.Options.Fill.{wrote}
use internet_applications.Packet.{Packet, IsPacket, pack, receive}
use internet_applications.Lease.{Lease, Leases}
use internet_applications.Lease.Table.{find_mac}
use internet_applications.Reply.{Server, Env, change_socket_setup}
use internet_applications.Reply.Written.{answer_with_times}
use internet_applications.Server
use internet_applications.Server.{round, reply, dispatch}
use internet_applications.Server.Pool.{IsPooled}
use internet_applications.Server.Renewing.{Stamps, request_renewed}
use internet_applications.Client.{
  Device, Client, get_ip_address, new_xid, change_socket_setup as set_addresses, receive_reply,
  exchange, dhcp_renew, dhcp_rebind,
}
use internet_applications.Client.Menu.{renew, rebind, settle}
use internet_applications.Client.Reading.{armed, set_alarm-acked}
use internet_applications.Exchange.Asked.{asking, heard, heard-IsPacket, heard_ciaddr, heard_padded}
use internet_applications.Exchange.Arrived.{arrived, round-arrived, handle-dispatch, request-Asks}
use internet_applications.Exchange.Replied.{replied, receive-replied, replied-Answers}
use internet_applications.Exchange.Acquiring.{
  here, Answers, send_packet-asking, await_reply-hit, take_ack-answer,
}

module _ {K : Type 0} (c : Client K) (mac : Bytes) (six : length mac ≡ 6) (a server : ℕ) where
  abbrev asking_xid : ℕ
  asking_xid = c.rand c.calls % 2 ^ 32

  -- The request of a client that has the address `a`, in network order.
  abbrev pub renewal : Bytes
  renewal = asking dhcprequest c.dhcp_server_identifier a c.yiaddr asking_xid mac six

  -- The client after the answer; `server` is in host order.
  abbrev pub renewed : (rest : List (Option Bytes)) → Client K
  renewed rest = record c {
    xid = asking_xid;
    calls = suc c.calls;
    client_addr = htonl (ntohl a);
    server_addr = htonl server;
    dhcp_server_identifier = here;
    sent = record { to_addr = htonl server; payload = renewal } ∷ c.sent;
    inbox = rest;
  }

  exchange_answered :
      (dev : Device K) (acked ack : Packet) (d old : Bytes) (rest : List (Option Bytes))
      → dev.get_hwaddr c.device ≡ some mac
      → get_ip_address dev c.device ≡ a
      → c.inbox ≡ some d ∷ rest
      → receive d acked ≡ ack
      → Answers asking_xid dhcpack old ack
      → exchange dev dhcprequest server acked c ≡ ok (some ((pos 0, some ack), renewed rest))
  unfolding exchange new_xid set_addresses receive_reply
  exchange_answered dev acked ack d old rest named has next got answers =
      let c₁ = record c {
        xid = asking_xid;
        calls = suc c.calls;
        client_addr = htonl (ntohl a);
        server_addr = htonl server;
      } in
      rw
        (
          has,
          send_packet-asking dev mac six dhcprequest a c₁ named has,
          next,
          await_reply-hit asking_xid dhcpack old d acked ack rest got answers,
          take_ack-answer ack old none
              (record (renewed rest) { dhcp_server_identifier = c.dhcp_server_identifier })
              asking_xid answers,
        )
        refl

module _ (e : Env) (s : Server) (h : IsPacket s.dhcp_recv) (mac : Bytes) (six : length mac ≡ 6)
    (yiaddr xid : ℕ) (pool : IsPooled s.leases) (l : Lease)
    (known : find_mac (mac ++ replicate 10 0) s.leases.lease_head ≡ some l) where
  abbrev word : ℕ
  word = htonl l.addr

  abbrev q : Packet
  q = heard dhcprequest here word yiaddr xid mac six s.dhcp_recv

  -- The server after the answer, with the leases `t`.
  abbrev answered : Leases → Server
  answered t = record (change_socket_setup dhcp_server_ip_address (ntohl q.ciaddr) (arrived s q)) {
    leases = t;
    dhcp_recv = replied dhcpack word q;
  }

  round-renews :
      (t : Leases) × (round e (some (asking dhcprequest here word yiaddr xid mac six)) s
        ≡ ok (reply (answered t, 300)))
      × Stamps e.stamp_time l s.leases t
  unfolding dispatch change_socket_setup
  round-renews =
      let mine =
        ap (λ m. find_mac m s.leases.lease_head)
          (heard_padded dhcprequest here word yiaddr xid mac six s.dhcp_recv)
        ∙ known in
      let (t, run, stamps) =
        request_renewed e (arrived s q) (request-Asks s h word yiaddr xid mac six (htonl-lt l.addr))
          pool l mine (heard_ciaddr dhcprequest here word yiaddr xid mac six s.dhcp_recv) in
      (
        t,
        round-arrived e s h here word yiaddr xid mac six (htonl-lt l.addr) dhcprequest
            ∙ handle-dispatch e s h here word yiaddr xid mac six (htonl-lt l.addr) dhcprequest
            ∙ run,
        stamps,
      )

-- What the two programs do, when the client's request reaches the server and the reply the client.
pub record Renewed {K : Type 0} (e : Env) (s : Server) (dev : Device K) (c : Client K) (mac : Bytes)
    (six : length mac ≡ 6) (stack : Packet) (l : Lease) (rest : List (Option Bytes)) : Type 0 where
  pub s₁ : Server
  pub ack : Server.Sent
  pub answers :
      round e (some (renewal c mac six (htonl l.addr) dhcp_server_ip_address)) s ≡ ok (s₁, some ack)
  pub unicast : ack.to_addr ≡ htonl l.addr
  pub stamps : Stamps e.stamp_time l s.leases s₁.leases
  pub renews :
      renew dev stack (record c { inbox = some ack.payload ∷ rest })
      ≡ ok (some (tt, armed (renewed c mac six (htonl l.addr) dhcp_server_ip_address rest)))
  pub rebinds :
      rebind dev stack (record c { inbox = some ack.payload ∷ rest })
      ≡ ok (some (tt, armed (renewed c mac six (htonl l.addr) inaddr_broadcast rest)))

-- A client that has the address of its lease, and whose chosen server is this one, renews the lease: the
-- server, whose table is well-formed with all leases in the pool and knows the client, acknowledges its
-- request to the address of the client and stamps the lease, whether or not it has run out, and no
-- other; the client accepts the answer, keeps its address and starts the alarm of T1 again. It does the
-- same when it rebinds, where the request goes to everybody and names this server all the same. The
-- fields of the two buffers are in range and their arrays have their sizes.
pub renew-Renewed :
    {K : Type 0} (e : Env) (s : Server) (dev : Device K) (c : Client K) (mac : Bytes)
    (six : length mac ≡ 6) (stack : Packet) (l : Lease) (rest : List (Option Bytes))
    → dev.get_hwaddr c.device ≡ some mac
    → get_ip_address dev c.device ≡ htonl l.addr
    → c.dhcp_server_identifier ≡ here
    → IsPacket s.dhcp_recv
    → IsPacket stack
    → IsPooled s.leases
    → find_mac (mac ++ replicate 10 0) s.leases.lease_head ≡ some l
    → Renewed e s dev c mac six stack l rest
unfolding reply change_socket_setup dhcp_renew dhcp_rebind renew rebind settle
renew-Renewed e s dev c mac six stack l rest named has chosen h hs pool known =
    let xid = c.rand c.calls % 2 ^ 32 in
    let a = htonl l.addr in
    let (t, run, stamps) = round-renews e s h mac six c.yiaddr xid pool l known in
    let q = heard dhcprequest here a c.yiaddr xid mac six s.dhcp_recv in
    let i =
      heard-IsPacket dhcprequest here a c.yiaddr xid mac six (htonl-lt l.addr) s.dhcp_recv h in
    let sent = take 300 (pack (replied dhcpack a q)) in
    let ack = record (replied dhcpack a q) {
      options = (wrote (answer_with_times dhcpack) stack.options).0;
    } in
    let to_client : htonl (ntohl q.ciaddr) ≡ a =
      ap (λ w. htonl (ntohl w)) (heard_ciaddr dhcprequest here a c.yiaddr xid mac six s.dhcp_recv)
      ∙ htonl-htonl a (htonl-lt l.addr) in
    let server : ntohl c.dhcp_server_identifier ≡ dhcp_server_ip_address =
      ap ntohl chosen ∙ htonl-htonl dhcp_server_ip_address (omega arith) in
    let c' = record c { inbox = some sent ∷ rest } in
    let got = λ (to : ℕ).
      exchange_answered c' mac six a to dev stack ack sent stack.options rest named has refl
        (receive-replied q i dhcpack a (htonl-lt l.addr) stack hs)
        (replied-Answers xid here a c.yiaddr dhcprequest dhcpack a mac six s.dhcp_recv stack) in
    let alarm = λ (to : ℕ). set_alarm-acked ack (renewed c mac six a to rest) stack.options refl in
    record {
      s₁ = answered e s h mac six c.yiaddr xid pool l known t;
      ack = record { to_addr = htonl (ntohl q.ciaddr); payload = sent };
      answers = rw chosen run;
      unicast = to_client;
      stamps = stamps;
      renews = rw (server, got dhcp_server_ip_address) (alarm dhcp_server_ip_address);
      rebinds = rw (got inaddr_broadcast) (alarm inaddr_broadcast);
    }
