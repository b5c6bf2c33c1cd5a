-- ===== src/Startup.antt =====
-- How dhcp-client.c and dhcp-server.c start: the arguments, the socket and the exits before their work.
pub mod Setup
pub mod ClientMain
pub mod ServerMain
pub mod Composed
use Prim.Native.String.{String, len}
use internet_applications.Base.{
  ℕ, ◌+◌, ◌≡◌, Bool, true, false, not, ◌||◌, Option, none, some, List, [], ◌∷◌, Bytes, Run, ok,
  fault, out_of_fuel, ◌==◌, ltb, if◌then◌else◌, length, ℤ, is_negative,
}
use text.Mathlib.Text.{◌==◌ as str_eq}
use internet_applications.Protocol.{dhcp_server_port, dhcp_client_port, inaddr_any, max_wait_time}
use internet_applications.Words.{htonl, htons}
use internet_applications.Exec.{Exec}
use internet_applications.Packet.{Packet}
use internet_applications.Client
use internet_applications.Client.{Client, Device}
use internet_applications.Client.Menu
use internet_applications.Client.Menu.{Event}
use internet_applications.Reply
use internet_applications.Reply.{Server, Env}
use internet_applications.Server.{Sent, round}

pub data SocketOption : Type 0 where
  receive_timeout : (seconds : ℕ) → SocketOption
  bind_to_device : (name : String) → SocketOption
  broadcast : SocketOption

-- A system call that was made; `socket` with the descriptor that it gave, `bind` with the address and the port in
-- network order.
pub data SystemCall : Type 0 where
  socket : ℤ → SystemCall
  setsockopt : ℤ → SocketOption → SystemCall
  bind : ℤ → (addr port : ℕ) → SystemCall
  signal : SystemCall
  close : ℤ → SystemCall

-- What the calls return.
pub record System : Type 0 where
  pub geteuid : ℕ
  pub socket : ℤ
  pub setsockopt : ℤ → SocketOption → ℤ
  pub bind : ℤ → (addr port : ℕ) → ℤ
  pub inet_addr : String → ℕ

-- `dhcp_socket`, the calls so far, the last first, and the other globals.
pub record Process (W : Type 0) : Type 0 where
  pub dhcp_socket : ℤ
  pub calls : List SystemCall
  pub globals : W

-- A process goes on with a value, or has ended with a code.
pub data Ending (W A : Type 0) : Type 0 where
  goes : A → Process W → Ending W A
  exits : (code : ℕ) → (calls : List SystemCall) → Ending W A

abbrev pub Program : Type 0 → Type 0 → Type 0
Program W A = Process W → Run (Ending W A)

module _ {W A B : Type 0} where
  abbrev pub continue : Run (Ending W A) → (A → Program W B) → Run (Ending W B)
  continue (ok (goes a p)) f = f a p
  continue (ok (exits code calls)) f = ok (exits code calls)
  continue fault f = fault
  continue out_of_fuel f = out_of_fuel

  infixl 5 ◌>>=◌ ◌>>◌
  abbrev pub ◌>>=◌ : Program W A → (A → Program W B) → Program W B
  m >>= f = λ p. continue (m p) f

  abbrev pub ◌>>◌ : Program W A → Program W B → Program W B
  m >> k = m >>= λ _. k

module _ {W A : Type 0} where
  abbrev pub pure : A → Program W A
  pure a p = ok (goes a p)

  abbrev pub exit : ℕ → Program W A
  exit code p = ok (exits code p.calls)

  -- A program on the globals; where it ends the process, `dhcp_close` comes before `exit(1)`.
  abbrev pub on_globals : Run (Option (A × W)) → Program W A
  on_globals (ok (some (a, w))) p = ok (goes a (record p { globals = w }))
  on_globals (ok none) p = ok (exits 1 (close p.dhcp_socket ∷ p.calls))
  on_globals fault p = fault
  on_globals out_of_fuel p = out_of_fuel

  abbrev pub run : Exec W A → Program W A
  run m p = on_globals (m p.globals) p

module _ {W : Type 0} where
  abbrev pub make_call : SystemCall → Program W (Unit {0})
  make_call c p = ok (goes tt (record p { calls = c ∷ p.calls }))

  abbrev pub set_globals : (W → W) → Program W (Unit {0})
  set_globals f p = ok (goes tt (record p { globals = f p.globals }))

  -- `dhcp_socket = socket(…)`
  unfoldable pub open_socket : System → Program W ℤ
  open_socket sys p =
      ok (
        goes sys.socket
          (record p { dhcp_socket = sys.socket; calls = socket sys.socket ∷ p.calls }))

  unfoldable pub dhcp_close : Program W (Unit {0})
  dhcp_close p = make_call (close p.dhcp_socket) p

  -- `if (setsockopt(dhcp_socket, …) < 0)`, and what follows the failure.
  unfoldable pub set_option : System → SocketOption → Program W (Unit {0}) → Program W (Unit {0})
  set_option sys option failed p =
      (make_call (setsockopt p.dhcp_socket option)
          >> (if is_negative (sys.setsockopt p.dhcp_socket option) then failed else pure tt))
        p

  -- `if (bind(dhcp_socket, …) < 0)`
  unfoldable pub bind_address :
      System → (addr port : ℕ) → Program W (Unit {0}) → Program W (Unit {0})
  bind_address sys addr port failed p =
      (make_call (bind p.dhcp_socket addr port)
          >> (if is_negative (sys.bind p.dhcp_socket addr port) then failed else pure tt))
        p

  -- `strcpy(if_eth.ifr_name, dev_name)` into 16 bytes.
  unfoldable pub copy_name : String → Program W (Unit {0})
  copy_name name p = if ltb (len name) 16 then ok (goes tt p) else fault

-- `dhcp_setup` of dhcp-client.c.
unfoldable pub client_setup :
    {K : Type 0} → System → (dev_name : String) → Program (Client K) (Unit {0})
client_setup sys dev_name =
    let failed = dhcp_close >> exit 1 in
    do
      fd ← open_socket sys
      if is_negative fd then exit 1 else do
        set_option sys (receive_timeout max_wait_time) failed
        copy_name dev_name
        set_option sys (bind_to_device dev_name) failed
        set_option sys broadcast failed
        set_globals Client.dhcp_setup
        bind_address sys (htonl inaddr_any) (htons dhcp_client_port) failed
        make_call signal

-- `dhcp_setup` of dhcp-server.c, without the list of leases. A socket that cannot be made is only reported.
unfoldable pub server_setup : System → (dev_name : String) → Program Server (Unit {0})
server_setup sys dev_name = do
  fd ← open_socket sys
  copy_name dev_name
  set_option sys (bind_to_device dev_name) (exit 1)
  set_option sys broadcast (exit 1)
  set_globals (λ s. Reply.dhcp_setup)
  bind_address sys (htonl inaddr_any) (htons dhcp_server_port) (exit 1)

-- `argv[1]`
abbrev pub second : List String → String
second (name ∷ device ∷ rest) = device
second argv = ""

module _ {K : Type 0} (sys : System) (dev : Device K) (stack : Packet) (events : List Event) where
  -- The dispatch of the client on its arguments. Where the usage is printed, nothing else is done.
  unfoldable pub work : (argv : List String) → Program (Client K) (Unit {0})
  work (name ∷ device ∷ option ∷ []) =
      if str_eq option "--interact"
      then run (Menu.interact dev stack events)
      else if str_eq option "--default"
      then run (Menu.discover dev stack)
      else pure tt
  work (name ∷ device ∷ option ∷ server ∷ []) =
      set_globals (λ s. record s { dhcp_server_identifier = sys.inet_addr server })
      >> (if str_eq option "--release"
          then run (Menu.release dev stack)
          else if str_eq option "--inform"
          then run (Menu.inform dev stack)
          else if str_eq option "--renew"
          then run (Menu.renew dev stack)
          else if str_eq option "--rebind"
          then run (Menu.rebind dev stack)
          else pure tt)
  work argv = pure tt

  unfoldable pub client_main : (argv : List String) → Program (Client K) ℕ
  client_main argv =
      if not (sys.geteuid == 0)
      then exit 0
      else if ltb (length argv) 3 || ltb 4 (length argv)
      then exit 0
      else do client_setup sys (second argv); work argv; dhcp_close; pure 0

-- The first rounds of the server's loop, with what surrounds each and the datagram that it receives.
unfoldable pub serve : List (Env × Option Bytes) → Program Server (List (Option Sent))
serve [] = pure []
serve ((e, d) ∷ rounds) = λ p. elim (round e d p.globals) [
  | ok (s, out) ↦ (serve rounds >>= λ outs. pure (out ∷ outs)) (record p { globals = s })
  | fault ↦ fault
  | out_of_fuel ↦ out_of_fuel
]

unfoldable pub server_main :
    System → List (Env × Option Bytes) → (argv : List String) → Program Server (List (Option Sent))
server_main sys rounds argv =
    if not (sys.geteuid == 0)
    then exit 0
    else if not (length argv == 2) || str_eq (second argv) "-h"
    then exit 0
    else server_setup sys (second argv) >> serve rounds
