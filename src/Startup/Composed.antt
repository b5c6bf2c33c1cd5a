-- ===== src/Startup/Composed.antt =====
-- A run of dhcp-client.c from its arguments on, against the server.
use Prim.Native.String.{String, len}
use internet_applications.Base.{
  true, ◌==◌, ◌≤◌, ◌<◌, ◌≡◌, refl, ap, Option, none, some, List, [], ◌∷◌, ◌++◌, Bytes, ok, length,
  replicate, arith, pos,
}
use internet_applications.Words.{htonl}
use internet_applications.Protocol.{
  dhcp_server_ip_address, inaddr_broadcast, ip_address_pool_amount,
}
use internet_applications.Packet.{Packet, IsPacket}
use internet_applications.Lease.{Lease}
use internet_applications.Lease.Table.{find_mac}
use internet_applications.Lease.Allocate.{Covers}
use internet_applications.Reply.{Server, Env}
use internet_applications.Server.Pool.{IsPooled}
use internet_applications.Client
use internet_applications.Client.{Client, Device, get_ip_address}
use internet_applications.Client.Menu.{Event, discover, renew, rebind}
use internet_applications.Client.Reading.{armed}
use internet_applications.Client.Configuring.{configured}
use internet_applications.Exchange.Acquiring.{here, leased}
use internet_applications.Exchange.Leased.{Leased, discover-Leased}
use internet_applications.Exchange.Renewed.{Renewed, renewed, renew-Renewed}
use internet_applications.Startup.{close, System, Process, goes, client_main, work, dhcp_close}
use internet_applications.Startup.Setup.{ClientReady, client_calls, client_setup-ready}

module _ {K : Type 0} (sys : System) (dev : Device K) (stack : Packet) (events : List Event)
    (program name : String) where
  abbrev begun : Client K → Process (Client K)
  begun w = record { dhcp_socket = pos 0; calls = []; globals = w }

  -- A run that returns 0, with the socket set up and closed, and leaves these globals.
  abbrev pub Returns : (arguments : List String) (w after : Client K) → Type 0
  Returns arguments w after =
      client_main sys dev stack events (program ∷ name ∷ arguments) (begun w)
      ≡ ok (
          goes 0 (record {
            dhcp_socket = sys.socket;
            calls = close sys.socket ∷ client_calls sys name (begun w);
            globals = after;
          }))

  -- The globals once the set-up and the server's address are done.
  abbrev pub chosen : String → Client K → Client K
  chosen server w = record (Client.dhcp_setup w) { dhcp_server_identifier = sys.inet_addr server }

  module _ (root : sys.geteuid ≡ 0) (short : len name < 16) (ready : ClientReady sys name) where
    is_root : (sys.geteuid == 0) ≡ true
    is_root = ap (λ u. u == 0) root

    default-Returns :
        (w after : Client K)
        → discover dev stack (Client.dhcp_setup w) ≡ ok (some (tt, after))
        → Returns ("--default" ∷ []) w after
    unfolding client_main work dhcp_close
    default-Returns w after ends =
        rw (is_root, client_setup-ready sys name (begun w) short ready, ends) refl

    renew-Returns :
        (server : String) (w after : Client K)
        → renew dev stack (chosen server w) ≡ ok (some (tt, after))
        → Returns ("--renew" ∷ server ∷ []) w after
    unfolding client_main work dhcp_close
    renew-Returns server w after ends =
        rw (is_root, client_setup-ready sys name (begun w) short ready, ends) refl

    rebind-Returns :
        (server : String) (w after : Client K)
        → rebind dev stack (chosen server w) ≡ ok (some (tt, after))
        → Returns ("--rebind" ∷ server ∷ []) w after
    unfolding client_main work dhcp_close
    rebind-Returns server w after ends =
        rw (is_root, client_setup-ready sys name (begun w) short ready, ends) refl

    -- A run with `--default` and the two answers of the server.
    pub record Acquires (e₁ e₂ : Env) (s : Server) (w : Client K) (mac : Bytes)
        (six : length mac ≡ 6) (rest : List (Option Bytes)) : Type 0 where
      pub together : Leased e₁ e₂ s dev (Client.dhcp_setup w) mac six stack rest
      pub returns :
          Returns
            ("--default" ∷ [])
            (record w {
              inbox =
                  some together.exchange.offer.payload ∷ some together.exchange.ack.payload ∷ rest;
            })
            (armed
              (record (leased
                (Client.dhcp_setup w)
                mac
                six
                (htonl together.exchange.address)
                rest) { device = configured dev (htonl together.exchange.address) w.device }))

    -- `dhcp-client <interface> --default`, run by root on a name of at most 15 bytes where no call of the
    -- set-up fails, for an interface without an address, and a server whose well-formed table has room or
    -- knows the client: the four packets are exchanged, the client returns 0 with its socket closed and
    -- the address at its interface, and the server has the lease. The alarm of T1 is pending when the
    -- process ends.
    pub default-Acquires :
        (e₁ e₂ : Env) (s : Server) (w : Client K) (mac : Bytes) (six : length mac ≡ 6)
        (rest : List (Option Bytes))
        → dev.get_hwaddr w.device ≡ some mac
        → get_ip_address dev w.device ≡ 0
        → IsPacket s.dhcp_recv
        → IsPacket stack
        → IsPooled s.leases
        → Covers e₁.random
        → (find_mac (mac ++ replicate 10 0) s.leases.lease_head ≡ none
            → s.leases.num_of_lease < ip_address_pool_amount)
        → e₁.check_time ≤ e₂.check_time
        → Acquires e₁ e₂ s w mac six rest
    unfolding Client.dhcp_setup htonl
    default-Acquires e₁ e₂ s w mac six rest named blank h hs pool covers room order =
        let x =
          discover-Leased e₁ e₂ s dev (Client.dhcp_setup w) mac six stack rest named blank
            (omega arith) h hs pool covers room order in
        record {
          together = x;
          returns =
              default-Returns
                (record w {
                  inbox = some x.exchange.offer.payload ∷ some x.exchange.ack.payload ∷ rest;
                })
                (armed
                  (record (leased (Client.dhcp_setup w) mac six (htonl x.exchange.address) rest) {
                    device = configured dev (htonl x.exchange.address) w.device;
                  }))
                x.discovers;
        }

    -- Runs with `--renew` and `--rebind`, and the answer of the server.
    pub record Extends (e : Env) (s : Server) (server : String) (w : Client K) (mac : Bytes)
        (six : length mac ≡ 6) (l : Lease) (rest : List (Option Bytes)) : Type 0 where
      pub together : Renewed e s dev (chosen server w) mac six stack l rest
      pub renews :
          Returns
            ("--renew" ∷ server ∷ [])
            (record w { inbox = some together.ack.payload ∷ rest })
            (armed (renewed (chosen server w) mac six (htonl l.addr) dhcp_server_ip_address rest))
      pub rebinds :
          Returns
            ("--rebind" ∷ server ∷ [])
            (record w { inbox = some together.ack.payload ∷ rest })
            (armed (renewed (chosen server w) mac six (htonl l.addr) inaddr_broadcast rest))

    -- `dhcp-client <interface> --renew <server>` and `--rebind`, run by root on a name of at most 15 bytes
    -- where no call of the set-up fails, for an interface with the address of a lease of this server,
    -- whose well-formed table knows the client: the server stamps the lease, and the client accepts its
    -- answer and returns 0 with its socket closed.
    pub renew-Extends :
        (e : Env) (s : Server) (server : String) (w : Client K) (mac : Bytes) (six : length mac ≡ 6)
        (l : Lease) (rest : List (Option Bytes))
        → dev.get_hwaddr w.device ≡ some mac
        → get_ip_address dev w.device ≡ htonl l.addr
        → sys.inet_addr server ≡ here
        → IsPacket s.dhcp_recv
        → IsPacket stack
        → IsPooled s.leases
        → find_mac (mac ++ replicate 10 0) s.leases.lease_head ≡ some l
        → Extends e s server w mac six l rest
    unfolding Client.dhcp_setup
    renew-Extends e s server w mac six l rest named has given h hs pool known =
        let x =
          renew-Renewed e s dev (chosen server w) mac six stack l rest named has given h hs pool
            known in
        let w' = record w { inbox = some x.ack.payload ∷ rest } in
        record {
          together = x;
          renews =
              renew-Returns server w'
                (armed
                  (renewed (chosen server w) mac six (htonl l.addr) dhcp_server_ip_address rest))
                x.renews;
          rebinds =
              rebind-Returns server w'
                (armed (renewed (chosen server w) mac six (htonl l.addr) inaddr_broadcast rest))
                x.rebinds;
        }
