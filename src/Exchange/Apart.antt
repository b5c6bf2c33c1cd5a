-- ===== src/Exchange/Apart.antt =====
-- Two clients at the same server, one after the other.
use internet_applications.Base.{
  arith, ◌+◌, ◌^◌, ◌≤◌, ◌<◌, ◌≡◌, ◌≢◌, ap, ◌∙◌, Option, some, false, List, Bytes, length, replicate,
  ◌++◌,
}
use internet_applications.Protocol.{ip_address_pool_amount, ip_address_lease_time}
use internet_applications.Packet.{Packet, IsPacket}
use internet_applications.Lease.{same_mac}
use internet_applications.Lease.Table.{lookup}
use internet_applications.Lease.Allocate.{Covers}
use internet_applications.Reply.{Server, Env}
use internet_applications.Client.{Device, Client, get_ip_address}
use internet_applications.Exchange.Acquired.{Acquired, lease-Acquired}

module _ {K : Type 0} (e₁ e₂ e₃ e₄ : Env) (s : Server) (dev : Device K) (c : Client K) (mac : Bytes)
    (six : length mac ≡ 6) (offered acked : Packet) (rest : List (Option Bytes)) (dev' : Device K)
    (c' : Client K) (mac' : Bytes) (six' : length mac' ≡ 6) (offered' acked' : Packet)
    (rest' : List (Option Bytes)) where
  -- After a client has got a lease, a second client that has no address and asks the same server gets
  -- one as well, and another address than the first, if the lease of the first is not recorded under
  -- the hardware address of the second and has not run out when the second asks, the draws of the
  -- server cover the pool, the table had room for two, the fields of the buffers of the second and its
  -- last offered address are in range, and the clock does not go back.
  pub second-differs :
      (x : Acquired e₁ e₂ s dev c mac six offered acked rest)
      → same_mac x.lease.chaddr (mac' ++ replicate 10 0) ≡ false
      → e₃.check_time < e₂.stamp_time + ip_address_lease_time
      → s.leases.num_of_lease + 1 < ip_address_pool_amount
      → dev'.get_hwaddr c'.device ≡ some mac'
      → get_ip_address dev' c'.device ≡ 0
      → c'.yiaddr < 2 ^ 32
      → IsPacket offered'
      → IsPacket acked'
      → Covers e₃.random
      → e₃.check_time ≤ e₄.check_time
      → (y : Acquired e₃ e₄ x.s₂ dev' c' mac' six' offered' acked' rest') × (y.address ≢ x.address)
  second-differs x other early room named blank word ho ha covers order =
      let y =
        lease-Acquired e₃ e₄ x.s₂ dev' c' mac' six' offered' acked' rest' named blank word x.buffer
          ho ha x.table covers (λ unknown. omega (arith, room, x.grown)) order in
      (
        y,
        λ same.
            let there : lookup y.address x.s₂.leases.lease_head ≡ some x.lease =
              ap (λ a. lookup a x.s₂.leases.lease_head) same ∙ x.recorded in
            let mine = y.free.released x.lease there (omega (arith, early, x.stamped)) in
            absurd (cc (mine, other)),
      )
