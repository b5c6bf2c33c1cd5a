-- ===== src/Exchange/Leased.antt =====
-- The mode of the client that gets a lease, against the server.
use internet_applications.Base.{
  ◌^◌, ◌≡◌, ◌<◌, ◌≤◌, ◌++◌, none, some, Option, List, ◌∷◌, Bytes, ok, length, replicate,
}
use internet_applications.Words.{htonl}
use internet_applications.Protocol.{ip_address_pool_amount}
use internet_applications.Packet.{Packet, IsPacket}
use internet_applications.Lease.Table.{find_mac}
use internet_applications.Lease.Allocate.{Covers}
use internet_applications.Reply.{Server, Env}
use internet_applications.Server.Pool.{IsPooled}
use internet_applications.Client.{Device, Client, get_ip_address}
use internet_applications.Client.Menu.{discover, settle}
use internet_applications.Client.Configuring.{configured, setup_interface-acked}
use internet_applications.Client.Reading.{armed, set_alarm-acked}
use internet_applications.Exchange.Acquiring.{leased}
use internet_applications.Exchange.Acquired.{Acquired, lease-Acquired}

-- The exchange, and the client behind it: the interface has the address, and the alarm of T1 is pending.
pub record Leased {K : Type 0} (e₁ e₂ : Env) (s : Server) (dev : Device K) (c : Client K)
    (mac : Bytes) (six : length mac ≡ 6) (stack : Packet) (rest : List (Option Bytes))
    : Type 0 where
  pub exchange : Acquired e₁ e₂ s dev c mac six stack stack rest
  pub discovers :
      discover dev stack
        (record c { inbox = some exchange.offer.payload ∷ some exchange.ack.payload ∷ rest })
      ≡ ok (
          some (
            tt,
            armed (record (leased c mac six (htonl exchange.address) rest) {
              device = configured dev (htonl exchange.address) c.device;
            }),
          ))

-- A client that has a hardware address and no IP address, and a server whose table of leases is
-- well-formed with all leases in the pool, complete the exchange of four packets, whatever the
-- client asked for before and the buffers held, if the fields of the buffers and the last offered
-- address are in range, the draws of the server cover the pool, the table has room or knows the
-- client, and the clock does not go back. The server answers the first request with an offer and
-- the second with an acknowledgement, and the client accepts both. The address that was offered
-- lies in the pool, the table of the server has a lease for it, stamped with the time of the
-- acknowledgement, and the client sets it at its interface, with the mask and the route of the
-- server's network where these calls succeed, and starts the alarm of T1.
pub discover-Leased :
    {K : Type 0} (e₁ e₂ : Env) (s : Server) (dev : Device K) (c : Client K) (mac : Bytes)
    (six : length mac ≡ 6) (stack : Packet) (rest : List (Option Bytes))
    → dev.get_hwaddr c.device ≡ some mac
    → get_ip_address dev c.device ≡ 0
    → c.yiaddr < 2 ^ 32
    → IsPacket s.dhcp_recv
    → IsPacket stack
    → IsPooled s.leases
    → Covers e₁.random
    → (find_mac (mac ++ replicate 10 0) s.leases.lease_head ≡ none
        → s.leases.num_of_lease < ip_address_pool_amount)
    → e₁.check_time ≤ e₂.check_time
    → Leased e₁ e₂ s dev c mac six stack rest
unfolding discover settle
discover-Leased e₁ e₂ s dev c mac six stack rest named blank word h hs pool covers room order =
    let x =
      lease-Acquired e₁ e₂ s dev c mac six stack stack rest named blank word h hs hs pool covers
        room order in
    let t = leased c mac six (htonl x.address) rest in
    let u = record t { device = configured dev (htonl x.address) c.device } in
    record {
      exchange = x;
      discovers =
          rw
            (
              blank,
              x.acquires,
              setup_interface-acked dev x.packet t stack.options x.options,
              x.granted,
            )
            (set_alarm-acked x.packet u stack.options x.options);
    }
