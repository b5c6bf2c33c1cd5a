-- ===== src/Server/Invariant.antt =====
-- Invariants of the lease table over any sequence of rounds.
use internet_applications.Base.{◌≡◌, refl, Option, none, some, Bytes, ok, Ensures, Ensures-elim}
use internet_applications.Protocol.{inaddr_any, inaddr_broadcast}
use internet_applications.Packet.{receive}
use internet_applications.Lease.Table.{
  IsTable, add_lease-IsTable, delete_lease-IsTable, allocate_ip-IsTable,
}
use internet_applications.Reply.{Server, Env, set_recv, change_socket_setup, dhcp_setup}
use internet_applications.Server.{Sent, round}
use internet_applications.Server.Leases.{Allowed, handle-Holds}

table-Allowed : (e : Env) (s : Server) → IsTable s.leases → Allowed IsTable allocate_ip-IsTable e s
table-Allowed e s h = record {
  grant =
      λ n ip value got loaded good. add_lease-IsTable e.stamp_time s.leases ip s.dhcp_recv.chaddr h;
  inform = λ type ack blank n ip value got loaded.
      add_lease-IsTable e.stamp_time s.leases ip s.dhcp_recv.chaddr h;
  gone = λ type. delete_lease-IsTable s.leases s.dhcp_recv.ciaddr s.dhcp_recv.chaddr h;
}

round-IsTable-Ensures :
    (e : Env) (d : Option Bytes) (s : Server)
    → IsTable s.leases
    → Ensures (λ r. IsTable r.0.leases) (round e d s)
unfolding round change_socket_setup
round-IsTable-Ensures e none s h = h
round-IsTable-Ensures e (some d) s₀ h =
    let s = change_socket_setup inaddr_any inaddr_broadcast s₀ in
    let s' = set_recv s (receive d s.dhcp_recv) in
    handle-Holds IsTable allocate_ip-IsTable e s' h (table-Allowed e s' h)

-- The states that rounds can reach from `s`, whatever arrives and whatever the clock and the draws
-- give.
pub data Reach (s : Server) : Server → Type 0 where
  here : Reach s s
  next :
      {t u : Server} {out : Option Sent} (e : Env) (d : Option Bytes)
      → Reach s t
      → round e d t ≡ ok (u, out)
      → Reach s u

-- In every state that the server reaches from one whose table is well formed, no address is leased
-- twice and `num_of_lease` is the number of leases.
pub Reach-IsTable : {s t : Server} → Reach s t → IsTable s.leases → IsTable t.leases
Reach-IsTable here h = h
Reach-IsTable (next {t} e d r step) h =
    Ensures-elim (λ p. IsTable p.0.leases) (round e d t)
      (round-IsTable-Ensures e d t (Reach-IsTable r h)) step

pub dhcp_setup-IsTable : IsTable dhcp_setup.leases
unfolding dhcp_setup
dhcp_setup-IsTable = record { counted = refl; unique = tt }
