-- ===== src/Server/Pool.antt =====
-- Which messages keep every lease inside the address pool.
use internet_applications.Base.{
  ℕ, ◌≤◌, ◌≡◌, ◌≢◌, true, Option, some, Bytes, ok, arith, Option-cases, inl, inr, Ensures-elim, ℤ,
}
use internet_applications.Words.{htonl, ntohl}
use internet_applications.Protocol
use internet_applications.Protocol.{dhcpack, dhcpinform, inaddr_any, inaddr_broadcast}
use internet_applications.Packet.{receive}
use internet_applications.Lease.{
  Lease, Leases, Random, has_addr, add_lease, delete_lease, allocate_ip,
}
use internet_applications.Lease.Table.{
  IsTable, lookup, has_addr-lookup, add_lease-IsTable, delete_lease-IsTable, allocate_ip-IsTable,
}
use internet_applications.Lease.Lookup.{lookup-add_lease, lookup-allocate_ip}
use internet_applications.Lease.Release.{lookup-delete_lease}
use internet_applications.Lease.Range.{length-le_range}
use internet_applications.Lease.Allocate.{InRange}
use internet_applications.Lease.Check.{check_ipaddr_iff}
use internet_applications.Reply.{Server, Env, set_recv, change_socket_setup}
use internet_applications.Server.{Sent, handle, round}
use internet_applications.Server.Leases.{HasType, Allowed, handle-Holds}

-- A table whose addresses are all in the pool.
pub record IsPooled (t : Leases) : Type 0 where
  pub table : IsTable t
  pub pooled : (a : ℕ) (l : Lease) → lookup a t.lease_head ≡ some l → InRange a

-- Such a table has at most as many leases as the pool has addresses.
pub num_of_lease-le_pool :
    (t : Leases) → IsPooled t → t.num_of_lease ≤ Protocol.ip_address_pool_amount
num_of_lease-le_pool t h =
    let within : (a : ℕ) → has_addr a t.lease_head ≡ true → InRange a =
      λ a there. let (l, found) = has_addr-lookup a t.lease_head there in h.pooled a l found in
    omega (
      arith,
      length-le_range Protocol.ip_address_pool_amount Protocol.ip_address_pool_start t.lease_head
          h.table.unique within,
      h.table.counted,
    )

pub add_lease-IsPooled :
    (now : ℕ) (t : Leases) (ip : ℕ) (mac : Bytes)
    → IsPooled t
    → InRange (ntohl ip)
    → IsPooled (add_lease now t ip mac)
add_lease-IsPooled now t ip mac h inside = record {
  table = add_lease-IsTable now t ip mac h.table;
  pooled = λ a l there. elim (Option-cases (lookup a t.lease_head)) [
    | inr (m, old) ↦ h.pooled a m old
    | inl new ↦ ground (arith, inside, lookup-add_lease now t ip mac a)
  ];
}

delete_lease-IsPooled :
    (t : Leases) (ip : ℕ) (mac : Bytes) → IsPooled t → IsPooled (delete_lease t ip mac)
delete_lease-IsPooled t ip mac h = record {
  table = delete_lease-IsTable t ip mac h.table;
  pooled = λ a l there. elim (Option-cases (lookup a t.lease_head)) [
    | inr (m, old) ↦ h.pooled a m old
    | inl new ↦ absurd (ground (arith, lookup-delete_lease t ip mac a h.table))
  ];
}

pub allocate_ip-IsPooled :
    (r : Random) (now seed_time : ℕ) (t : Leases) (mac : Bytes)
    → IsPooled t
    → (t' : Leases) (res : ℤ) (a : Option ℕ) → allocate_ip r now seed_time t mac ≡ ok (t', res, a)
    → IsPooled t'
allocate_ip-IsPooled r now seed_time t mac h t' res a run = record {
  table = allocate_ip-IsTable r now seed_time t mac h.table t' res a run;
  pooled = λ b l there.
      let (m, old) = lookup-allocate_ip r now seed_time t mac h.table t' res a run b l there in
      h.pooled b m old;
}

pool-Allowed :
    (e : Env) (s : Server)
    → IsPooled s.leases
    → (HasType s dhcpinform → s.dhcp_recv.ciaddr ≢ htonl inaddr_any)
    → Allowed IsPooled allocate_ip-IsPooled e s
pool-Allowed e s h bound = record {
  grant = λ n ip value got loaded good.
      add_lease-IsPooled e.stamp_time s.leases ip s.dhcp_recv.chaddr h
        ((check_ipaddr_iff e.check_time s.leases ip s.dhcp_recv.chaddr).0 good).pooled;
  inform = λ type ack blank n ip value got loaded. absurd (bound type blank);
  gone = λ type. delete_lease-IsPooled s.leases s.dhcp_recv.ciaddr s.dhcp_recv.chaddr h;
}

-- A datagram keeps the leases in the pool, unless it is an inform from a client without an address.
pub round-IsPooled :
    (e : Env) (datagram : Bytes) (s t : Server) (out : Option Sent)
    → let r =
        set_recv
          (change_socket_setup inaddr_any inaddr_broadcast s)
          (receive datagram s.dhcp_recv) in
      (HasType r dhcpinform → r.dhcp_recv.ciaddr ≢ htonl inaddr_any)
      → IsPooled s.leases
      → round e (some datagram) s ≡ ok (t, out)
      → IsPooled t.leases
unfolding round change_socket_setup
round-IsPooled e datagram s t out bound h step =
    let r =
      set_recv (change_socket_setup inaddr_any inaddr_broadcast s) (receive datagram s.dhcp_recv) in
    Ensures-elim (λ p. IsPooled p.0.leases) (handle e r)
      (handle-Holds IsPooled allocate_ip-IsPooled e r h (pool-Allowed e r h bound)) step
