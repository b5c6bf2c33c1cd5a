-- ===== src/FileTransfer/Request.antt =====
-- l7-Server.c and l7-Client.c around their loops: the name of the file that the client asks for, the
-- rounds of the server, and the two `main`. A `char` is the byte in memory.
use internet_applications.Base.{
  ℕ, if_said, Option, none, some, List, [], ◌∷◌, ◌++◌, Bytes, Run, ok, fault, ◌>>=◌, length, take,
  drop, ℤ, is_negative,
}
use internet_applications.Words.{htons}
use internet_applications.Options.{store}
use internet_applications.Echo.{string_at}
use internet_applications.FileTransfer.{Source, Sink, send_file, receive_file}

-- `recv(clientSock, fileName, 20, 0)`: -1 (`none`) writes nothing.
abbrev pub fill_name : Option Bytes → Bytes → Bytes
fill_name none file_name = file_name
fill_name (some request) file_name = take 20 request ++ drop (length (take 20 request)) file_name

-- What the two programs print; the port in network order.
pub data Act : Type 0 where
  usage : (program : Bytes) → Act
  socket_failed : Act
  bind_failed : Act
  accepted : (addr port : ℕ) → Act
  requested : (file_name : Bytes) → Act
  entering : Act
  end_of_file : Act
  bytes_sent : ℤ → Act
  connecting : (server : Bytes) → Act
  file_received : Act
  bytes_received : ℤ → (file_name : Bytes) → Act

-- What the calls of `socket`, `bind` and `inet_addr` return.
pub record Network : Type 0 where
  pub socket : ℤ
  pub bind : ℤ → (addr port : ℕ) → ℤ
  pub inet_addr : Bytes → ℕ

-- A client whose connection `accept` gives, and its first `recv`.
pub record Accepted (S : Type 0) : Type 0 where
  pub addr : ℕ
  pub port : ℕ
  pub request : Option Bytes
  pub connection : S

-- 127.0.0.1, as it is written.
abbrev pub localhost : Bytes
localhost = 49 ∷ 50 ∷ 55 ∷ 46 ∷ 48 ∷ 46 ∷ 48 ∷ 46 ∷ 49 ∷ []

abbrev pub transfer_port : ℕ
transfer_port = 1234

module _ {D S : Type 0} (source : Source D) (sink : Sink S) (open_file : Bytes → D) (fuel : ℕ) where
  -- What follows a `recv` that does not return 0. The line `fileName[strlen(fileName)] = '\0'` writes the 0
  -- that is there.
  unfoldable pub send_named : Bytes → S → Run (Bytes × S × List Act)
  send_named file_name socket = do
    name ← string_at file_name
    file_name' ← store file_name (length name) (0 ∷ [])
    opened ← string_at file_name'
    (file, socket', size) ← send_file source sink fuel (open_file opened) socket
    ok (file_name', socket', requested opened ∷ entering ∷ end_of_file ∷ bytes_sent size ∷ [])

  -- The `if` in the server's loop, for a client that is accepted: `fileName`, which outlives it, what
  -- was sent to the client, and what is printed.
  unfoldable pub serve_client :
      (request : Option Bytes) → (file_name : Bytes) → S → Run (Bytes × S × List Act)
  serve_client (some []) file_name socket = ok (file_name, socket, [])
  serve_client (some (c ∷ request)) file_name socket =
      send_named (fill_name (some (c ∷ request)) file_name) socket
  serve_client none file_name socket = send_named file_name socket

  -- The rounds of the server's loop for the clients that connect: the connections at their end, and what
  -- is printed.
  unfoldable pub serve_clients : List (Accepted S) → (file_name : Bytes) → Run (List S × List Act)
  serve_clients [] file_name = ok ([], [])
  serve_clients (c ∷ cs) file_name = do
    (file_name', socket, acts) ← serve_client c.request file_name c.connection
    (sockets, more) ← serve_clients cs file_name'
    ok (socket ∷ sockets, accepted c.addr c.port ∷ (acts ++ more))

  -- `main` of the server up to the end of these rounds. A socket that could not be made or bound is only
  -- reported.
  unfoldable pub server_main :
      Network → List (Accepted S) → (file_name : Bytes) → Run (List S × List Act)
  server_main net clients file_name = do
    (sockets, acts) ← serve_clients clients file_name
    let bound = net.bind net.socket (net.inet_addr localhost) (htons transfer_port)
    ok (
      sockets,
      if_said (is_negative net.socket) socket_failed
          ++ (if_said (is_negative bound) bind_failed ++ acts),
    )

-- The client up to its loop: the name that it sends and the name of the file that it writes. `argument` is
-- the memory from `argv[2]` on, where `strcat` appends ".bak".
unfoldable pub ask : (argument : Bytes) → Run (Bytes × Bytes)
ask argument = do
  name ← string_at argument
  argument' ← store argument (length name) (46 ∷ 98 ∷ 97 ∷ 107 ∷ 0 ∷ [])
  file_name ← string_at argument'
  ok (name, file_name)

-- What the client leaves: the request that it sent, to the address and the port in network order, and the
-- file that it wrote.
pub record Fetched (T : Type 0) : Type 0 where
  pub addr : ℕ
  pub port : ℕ
  pub request : Bytes
  pub file : T

module _ {D T : Type 0} (stream : Source D) (store : Sink T) (connection : D)
    (open_store : Bytes → T) (fuel : ℕ) where
  -- `main` of the client, on the memory from each argument on: the code it ends with, what it leaves
  -- unless it only prints its usage, and what it prints. `connection` is what the server sends.
  unfoldable pub client_main :
      Network → (argv : List Bytes) → Run (ℕ × Option (Fetched T) × List Act)
  client_main net [] = fault
  client_main net (program ∷ ip ∷ argument ∷ []) = do
    server ← string_at ip
    (name, file_name) ← ask argument
    (rest, file, size) ← receive_file stream store fuel connection (open_store file_name)
    ok (
      0,
      some (record {
        addr = net.inet_addr server;
        port = htons transfer_port;
        request = name;
        file = file;
      }),
      if_said (is_negative net.socket) socket_failed
          ++ connecting server ∷ file_received ∷ bytes_received size file_name ∷ [],
    )
  client_main net (program ∷ args) = do name ← string_at program; ok (1, none, usage name ∷ [])
