-- ===== src/Exchange/Arrived.antt =====
-- The server at the moment a request of the client has arrived.
use internet_applications.Base.{ℕ, ◌^◌, ◌<◌, ◌≡◌, refl, some, Bytes, length, arith}
use internet_applications.Words.{htonl}
use internet_applications.Protocol
use internet_applications.Protocol.{
  dhcpdiscover, dhcpoffer, dhcprequest, dhcpack, dhcp_server_ip_address, inaddr_any,
  inaddr_broadcast, ip_address_pool_amount,
}
use internet_applications.Packet.{Packet, IsPacket}
use internet_applications.Reply.{Server, Env, set_recv, change_socket_setup}
use internet_applications.Server.{dispatch, handle, round, selected_server}
use internet_applications.Server.Request.{Asks}
use internet_applications.Exchange.Asked.{
  heard, heard-IsPacket, asking, receive-asking, heard_type, heard_type_byte, heard_opcode,
  heard_word,
}

-- The state of the server once the packet `p` has arrived.
abbrev pub arrived : Server → Packet → Server
arrived s p = set_recv (change_socket_setup inaddr_any inaddr_broadcast s) p

module _ (e : Env) (s : Server) (h : IsPacket s.dhcp_recv) (server ciaddr yiaddr xid : ℕ)
    (mac : Bytes) (six : length mac ≡ 6) (host : ciaddr < 2 ^ 32) where
  -- The request in the server's buffer.
  abbrev pub came : ℕ → Server
  came state = arrived s (heard state server ciaddr yiaddr xid mac six s.dhcp_recv)

  pub round-arrived :
      (state : ℕ)
      → round e (some (asking state server ciaddr yiaddr xid mac six)) s ≡ handle e (came state)
  unfolding round change_socket_setup
  round-arrived state =
      rw (receive-asking state server ciaddr yiaddr xid mac six host s.dhcp_recv h) refl

  pub handle-dispatch : (state : ℕ) → handle e (came state) ≡ dispatch e state (came state)
  unfolding handle
  handle-dispatch state =
      let q = s.dhcp_recv in
      rw (
        heard_opcode state server ciaddr yiaddr xid mac six q,
        heard_type state server ciaddr yiaddr xid mac six q,
        heard_type_byte state server ciaddr yiaddr xid mac six q,
      )

  pub came_size : (state : ℕ) → length (came state).dhcp_recv.options ≡ Protocol.dhcp_max_option_len
  came_size state =
      (heard-IsPacket state server ciaddr yiaddr xid mac six host s.dhcp_recv h).options

-- A second request names this server.
module _ (s : Server) (h : IsPacket s.dhcp_recv) (ciaddr yiaddr xid : ℕ) (mac : Bytes)
    (six : length mac ≡ 6) (host : ciaddr < 2 ^ 32) where
  abbrev here : ℕ
  here = htonl dhcp_server_ip_address

  pub request-Asks : Asks (arrived s (heard dhcprequest here ciaddr yiaddr xid mac six s.dhcp_recv))
  unfolding htonl selected_server
  request-Asks =
      let q = s.dhcp_recv in
      let (p', got', loaded') =
        heard_word dhcprequest here ciaddr yiaddr xid mac six q
          Protocol.option_dhcp_server_identifier here (omega arith) refl (omega arith) in
      record {
        size = (heard-IsPacket dhcprequest here ciaddr yiaddr xid mac six host q h).options;
        value = some p';
        selected = rw (got', loaded') refl;
        kind = heard_type dhcprequest here ciaddr yiaddr xid mac six q;
      }
