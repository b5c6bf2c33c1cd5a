-- ===== src/Server/Bounded.antt =====
-- How many leases the server can have.
use internet_applications.Base.{
  ◌≤◌, ◌≡◌, ◌≢◌, refl, Option, none, some, Bytes, ok, Ensures, Ensures-elim,
}
use internet_applications.Words.{htonl}
use internet_applications.Protocol
use internet_applications.Protocol.{dhcpinform, inaddr_any, inaddr_broadcast}
use internet_applications.Packet.{receive}
use internet_applications.Reply.{Server, Env, set_recv, change_socket_setup, dhcp_setup}
use internet_applications.Server.{Sent, round}
use internet_applications.Server.Leases.{HasType}
use internet_applications.Server.Pool.{IsPooled, num_of_lease-le_pool, round-IsPooled}

-- The datagram, once received, is no inform of a client without an address.
abbrev pub IsSafe : Server → Bytes → Type 0
IsSafe s datagram =
    let r =
      set_recv (change_socket_setup inaddr_any inaddr_broadcast s) (receive datagram s.dhcp_recv) in
    HasType r dhcpinform → r.dhcp_recv.ciaddr ≢ htonl inaddr_any

-- The states after rounds without such an inform, from the set-up on.
pub data Runs : Server → Type 0 where
  starts : Runs dhcp_setup
  silent :
      {t u : Server} {out : Option Sent} (e : Env) → Runs t → round e none t ≡ ok (u, out) → Runs u
  next :
      {t u : Server} {out : Option Sent} (e : Env) (datagram : Bytes)
      → Runs t
      → IsSafe t datagram
      → round e (some datagram) t ≡ ok (u, out)
      → Runs u

silent-IsPooled :
    (e : Env) (s : Server) → IsPooled s.leases → Ensures (λ r. IsPooled r.0.leases) (round e none s)
unfolding round change_socket_setup
silent-IsPooled e s h = h

starts-IsPooled : IsPooled dhcp_setup.leases
unfolding dhcp_setup
starts-IsPooled = record {
  table = record { counted = refl; unique = tt };
  pooled = λ a l there. absurd (cc);
}

Runs-IsPooled : {t : Server} → Runs t → IsPooled t.leases
Runs-IsPooled starts = starts-IsPooled
Runs-IsPooled (silent {t} e r step) =
    Ensures-elim (λ p. IsPooled p.0.leases) (round e none t) (silent-IsPooled e t (Runs-IsPooled r))
      step
Runs-IsPooled (next {t} {u} {out} e datagram r safe step) =
    round-IsPooled e datagram t u out safe (Runs-IsPooled r) step

-- From the set-up on, over every sequence of rounds in which no inform of a client without an address
-- arrives, and whatever the clock and the draws give, num_of_lease is at most the size of the pool.
pub num_of_lease_bounded :
    {t : Server} → Runs t → t.leases.num_of_lease ≤ Protocol.ip_address_pool_amount
num_of_lease_bounded {t} r = num_of_lease-le_pool t.leases (Runs-IsPooled r)
