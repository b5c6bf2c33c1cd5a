-- ===== src/Tests/Starting.antt =====
-- Runs of the DHCP programs from their arguments on.
use Prim.Native.String.{String}
use internet_applications.Base.{
  ℕ, refl, none, List, [], ◌∷◌, arith, pos, negsuc, is_negative, if◌then◌else◌, Ensures,
}
use internet_applications.Words.{htonl}
use internet_applications.Lease.{same_mac}
use internet_applications.Reply
use internet_applications.Reply.{Server, Env}
use internet_applications.Client.{Client, get_ip_address}
use internet_applications.Startup.{System, Process, client_main, server_main}
use internet_applications.Startup.Setup.{ClientReady}
use internet_applications.Startup.ClientMain.{EndsWell, client_main_ends}
use internet_applications.Startup.ServerMain.{Serves, RefusesBad, server_main-Serves}
use internet_applications.Startup.Composed.{Acquires, default-Acquires, Extends, renew-Extends}
use internet_applications.Tests.{ann, anns, one_lease, env, serving}
use internet_applications.Tests.Table.{counting-Covers}
use internet_applications.Tests.Exchange.{card, bound}
use internet_applications.Tests.Composition.{
  blank, blank-IsPacket, no_leases-IsPooled, one_lease-IsPooled, server, fresh,
}

-- A system where calls fail only on what is no descriptor; `192.168.0.1` is the only address.
abbrev linux : System
linux = record {
  geteuid = 0;
  socket = pos 3;
  setsockopt = λ fd option. if is_negative fd then negsuc 0 else pos 0;
  bind = λ fd addr port. if is_negative fd then negsuc 0 else pos 0;
  inet_addr = λ text. 16820416;
}

linux-ClientReady : ClientReady linux "eth0"
linux-ClientReady = record {
  opened = refl;
  timed = refl;
  named = refl;
  broadcasts = refl;
  bound = refl;
}

linux-RefusesBad : RefusesBad linux
linux-RefusesBad = λ fd option bad. ground (arith, bad)

abbrev client : Process (Client ℕ)
client = record { dhcp_socket = pos 0; calls = []; globals = fresh }

abbrev asking : List String
asking = "dhcp-client" ∷ "eth0" ∷ "--default" ∷ []

client_main_ends_example :
    Ensures
      (EndsWell linux card blank [] "eth0" client)
      (client_main linux card blank [] asking client)
client_main_ends_example = client_main_ends linux card blank [] asking client (omega arith)

abbrev before : Process Server
before = record { dhcp_socket = pos 0; calls = []; globals = Reply.dhcp_setup }

abbrev starting : List String
starting = "dhcp-server" ∷ "eth0" ∷ []

server_main-Serves_example :
    Ensures (Serves linux "eth0" before) (server_main linux ((env, none) ∷ []) starting before)
server_main-Serves_example =
    server_main-Serves linux ((env, none) ∷ []) starting before linux-RefusesBad (omega arith)

default-Acquires_example :
    Acquires linux card blank [] "dhcp-client" "eth0" refl
      (omega arith)
      linux-ClientReady
      env
      env
      server
      fresh
      ann
      refl
      []
unfolding get_ip_address
default-Acquires_example =
    default-Acquires linux card blank [] "dhcp-client" "eth0" refl (omega arith) linux-ClientReady
      env env server fresh ann refl [] refl refl blank-IsPacket blank-IsPacket no_leases-IsPooled
      counting-Covers (λ unknown. omega arith) (omega arith)

renew-Extends_example :
    Extends linux card blank [] "dhcp-client" "eth0" refl
      (omega arith)
      linux-ClientReady
      env
      (serving one_lease blank)
      "192.168.0.1"
      bound
      ann
      refl
      anns
      []
unfolding get_ip_address htonl same_mac
renew-Extends_example =
    renew-Extends linux card blank [] "dhcp-client" "eth0" refl (omega arith) linux-ClientReady env
      (serving one_lease blank) "192.168.0.1" bound ann refl anns [] refl refl refl blank-IsPacket
      blank-IsPacket one_lease-IsPooled refl
