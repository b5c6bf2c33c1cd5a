-- ===== src/Exchange/Served.antt =====
-- The server's answers to the two requests of a client that has no address.
use internet_applications.Base.{
  ℕ, ◌^◌, ◌<◌, ◌≡◌, refl, ap, ◌∙◌, true, none, some, Bytes, ok, length, arith, ne→==,
}
use internet_applications.Words.{htonl, ntohl, bytes32}
use internet_applications.Protocol
use internet_applications.Protocol.{
  dhcpdiscover, dhcpoffer, dhcprequest, dhcpack, dhcp_server_ip_address, inaddr_any,
  inaddr_broadcast, ip_address_pool_amount,
}
use internet_applications.Options.Fill.{wrote}
use internet_applications.Packet.{IsPacket}
use internet_applications.Lease.{add_lease}
use internet_applications.Lease.Table.{find_mac}
use internet_applications.Lease.Allocate.{Covers}
use internet_applications.Lease.Check.{IsFree, check_ipaddr_iff}
use internet_applications.Reply.{Server, Env, set_yiaddr, change_socket_setup, choose_yiaddr}
use internet_applications.Reply.Written.{answer_with_times}
use internet_applications.Reply.Built.{as_reply, with_options, construct_dhcp_packet-answer}
use internet_applications.Server.{
  reply, unicast_setup, dispatch, round, dhcp_handle_discover, selected_server,
}
use internet_applications.Server.Pool.{IsPooled}
use internet_applications.Server.Offering.{Offers, choose_yiaddr-Offers}
use internet_applications.Server.Request.{AsksNew, facing-broadcast, request_granted}
use internet_applications.Exchange.Arrived.{
  arrived, round-arrived, handle-dispatch, came_size, request-Asks,
}
use internet_applications.Exchange.Asked.{
  heard, asking, heard_type, heard_ciaddr, heard_broadcast, heard_word,
}

module _ (e : Env) (s : Server) (h : IsPacket s.dhcp_recv) (server yiaddr xid : ℕ) (mac : Bytes)
    (six : length mac ≡ 6) (word : yiaddr < 2 ^ 32) where
  -- The two packets in the server's buffer.
  abbrev pub asks_for : ℕ → Server
  asks_for state = arrived s (heard state server 0 yiaddr xid mac six s.dhcp_recv)

  -- A state that has an address to offer sends it, with the times of a lease.
  abbrev pub offering : Server → Server
  offering t = with_options (answer_with_times dhcpoffer) t

  discover-reply :
      (t : Server)
      → choose_yiaddr e dhcpoffer (as_reply (asks_for dhcpdiscover)) ≡ ok (t, true)
      → t.dhcp_recv.options ≡ (asks_for dhcpdiscover).dhcp_recv.options
      → dhcp_handle_discover e (asks_for dhcpdiscover) ≡ ok (reply (offering t, 300))
  unfolding dhcp_handle_discover unicast_setup change_socket_setup bytes32 wrote
  discover-reply t chose same =
      let r = asks_for dhcpdiscover in
      rw
        (ne→== r.dhcp_recv.flags (htonl Protocol.bootp_flags_unicast) (
          heard_broadcast dhcpdiscover server 0 yiaddr xid mac six s.dhcp_recv (omega arith)
            (omega arith)))
        (rw
          (construct_dhcp_packet-answer e r
            (came_size e s h server 0 yiaddr xid mac six (omega arith) dhcpdiscover) dhcpoffer 1 2
            dhcpoffer t (omega arith) chose same
            (heard_type dhcpdiscover server 0 yiaddr xid mac six s.dhcp_recv) refl)
          refl)

  -- A discover is answered by an offer to everybody.
  pub round-Offers :
      IsPooled s.leases
      → Covers e.random
      → (find_mac (asks_for dhcpdiscover).dhcp_recv.chaddr s.leases.lease_head ≡ none
          → s.leases.num_of_lease < ip_address_pool_amount)
      → (t : Server) × (round e (some (asking dhcpdiscover server 0 yiaddr xid mac six)) s
          ≡ ok (reply (offering t, 300)))
        × Offers e.check_time (as_reply (asks_for dhcpdiscover)) t
  unfolding htonl dispatch change_socket_setup
  round-Offers pool covers room =
      let r = asks_for dhcpdiscover in
      let (p, got, loaded) =
        heard_word dhcpdiscover server 0 yiaddr xid mac six s.dhcp_recv Protocol.option_requested_ip
          yiaddr (omega arith) refl word in
      let (t, chose, offers) =
        choose_yiaddr-Offers e (as_reply r) pool covers room yiaddr p got loaded word in
      (
        t,
        round-arrived e s h server 0 yiaddr xid mac six (omega arith) dhcpdiscover
            ∙ handle-dispatch e s h server 0 yiaddr xid mac six (omega arith) dhcpdiscover
            ∙ discover-reply t chose (ap (λ x. x.dhcp_recv.options) offers.same),
        offers,
      )

-- The second request names the server and asks for the address `yiaddr`.
module _ (e : Env) (s : Server) (h : IsPacket s.dhcp_recv) (yiaddr xid : ℕ) (mac : Bytes)
    (six : length mac ≡ 6) (word : yiaddr < 2 ^ 32) where
  abbrev here : ℕ
  here = htonl dhcp_server_ip_address

  abbrev pub asks : Server
  asks = arrived s (heard dhcprequest here 0 yiaddr xid mac six s.dhcp_recv)

  asks-AsksNew : AsksNew asks yiaddr
  unfolding htonl selected_server
  asks-AsksNew =
      let q = s.dhcp_recv in
      let (p, got, loaded) =
        heard_word dhcprequest here 0 yiaddr xid mac six q Protocol.option_requested_ip yiaddr
          (omega arith) refl word in
      record {
        asks = request-Asks s h 0 yiaddr xid mac six (omega arith);
        blank = heard_ciaddr dhcprequest here 0 yiaddr xid mac six q;
        wanted = p;
        found = got;
        loaded = loaded;
      }

  -- The state that grants the address.
  abbrev pub granting : Server
  granting = with_options (answer_with_times dhcpack) (
      set_yiaddr
        (record (as_reply (change_socket_setup inaddr_any inaddr_broadcast asks)) {
          leases = add_lease e.stamp_time s.leases yiaddr asks.dhcp_recv.chaddr;
        })
        yiaddr)

  -- A request for an address that is free is granted.
  pub round_grants :
      IsFree e.check_time s.leases (ntohl yiaddr) asks.dhcp_recv.chaddr
      → round e (some (asking dhcprequest here 0 yiaddr xid mac six)) s ≡ ok (reply (granting, 300))
  unfolding change_socket_setup dispatch
  round_grants free =
      round-arrived e s h here 0 yiaddr xid mac six (omega arith) dhcprequest
      ∙ handle-dispatch e s h here 0 yiaddr xid mac six (omega arith) dhcprequest
      ∙ request_granted e asks yiaddr asks-AsksNew
          ((check_ipaddr_iff e.check_time s.leases yiaddr asks.dhcp_recv.chaddr).1 free)
      ∙ ap
          (λ u. ok (
            reply (
              with_options (answer_with_times dhcpack) (
                  set_yiaddr
                    (record (as_reply u) {
                      leases = add_lease e.stamp_time s.leases yiaddr asks.dhcp_recv.chaddr;
                    })
                    yiaddr),
              300,
            )))
          (facing-broadcast e asks yiaddr (
            heard_broadcast dhcprequest here 0 yiaddr xid mac six s.dhcp_recv (omega arith)
              (omega arith)))
