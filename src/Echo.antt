-- ===== src/Echo.antt =====
-- l6-EchoClient.c and l6-EchoServer.c: words that the client sends as datagrams and the server prints.
-- A `char` is the byte in memory. Each `main` gives what it prints and sends, in its order.
pub mod Printed
use internet_applications.Base.{
  ℕ, if_said, suc, Bool, true, false, not, Option, none, some, List, [], ◌∷◌, ◌++◌, Bytes, Run, ok,
  fault, ◌>>=◌, ◌==◌, ltb, if◌then◌else◌, length, take, drop, ℤ, pos, negsuc, is_negative,
}
use internet_applications.Protocol.{inaddr_any}
use internet_applications.Words.{htonl, htons}
use internet_applications.Options.{store}

-- `ECHOMAX`
abbrev pub echo_max : ℕ
echo_max = 255

-- `strlen`, and what `%s` prints: the bytes before the first one that is 0. There must be one.
unfoldable pub string_at : Bytes → Run Bytes
string_at [] = fault
string_at (c ∷ b) = let rest = string_at b in if c == 0 then ok [] else do r ← rest; ok (c ∷ r)

-- What the two programs print and send; the port in network order.
pub data Act : Type 0 where
  usage : (program : Bytes) → Act
  socket_failed : Act
  bind_failed : Act
  word_too_long : Act
  other_length : Act
  sending_to : (server : Bytes) → Act
  from : (addr port : ℕ) → (text : Bytes) → Act
  sent : (sock : ℤ) → (addr port : ℕ) → (payload : Bytes) → Act
  closed : (sock : ℤ) → Act

-- What the calls return: `socket`, `bind` with the address and the port in network order, and the calls of
-- `sendto`, by their number.
pub record Network : Type 0 where
  pub socket : ℤ
  pub bind : ℤ → (addr port : ℕ) → ℤ
  pub sendto : (call : ℕ) → Bytes → ℤ
  pub inet_addr : Bytes → ℕ

-- `echoServPort`
abbrev pub echo_serv_port : ℕ
echo_serv_port = 56325

-- The test of the length that `sendto` returns: as a `size_t`, -1 is more than any length.
unfoldable pub other_size : ℤ → ℕ → Bool
other_size (pos n) len = not (n == len)
other_size (negsuc n) len = true

module _ (net : Network) (sock : ℤ) (addr port : ℕ) (serv_ip : Bytes) where
  -- The loop of the client over its words: `sendto` is called even where the word is too long.
  unfoldable pub send_words : (call : ℕ) → List Bytes → Run (List Act)
  send_words call [] = ok []
  send_words call (arg ∷ args) = do
    word ← string_at arg
    server ← string_at serv_ip
    acts ← send_words (suc call) args
    ok (
        if_said (ltb echo_max (length word)) word_too_long
        ++ sent sock addr port word
          ∷ (if_said (other_size (net.sendto call word) (length word)) other_length
              ++ sending_to server ∷ acts))

-- `main` of the client, on the memory from each argument on: the code it ends with, and what it did.
unfoldable pub client_main : Network → (argv : List Bytes) → Run (ℕ × List Act)
client_main net [] = fault
client_main net (program ∷ serv_ip ∷ word ∷ words) = do
  server ← string_at serv_ip
  acts ←
      send_words net net.socket (net.inet_addr server) (htons echo_serv_port) serv_ip 0
        (word ∷ words)
  ok (0, if_said (is_negative net.socket) socket_failed ++ (acts ++ closed net.socket ∷ []))
client_main net (program ∷ args) = do name ← string_at program; ok (1, usage name ∷ [])

-- What `recvfrom` gives.
pub record Datagram : Type 0 where
  pub addr : ℕ
  pub port : ℕ
  pub payload : Bytes

-- One round of the server: `recvfrom` fails (`none`: -1) or fills the first bytes of `echoBuffer`. A
-- write outside the buffer is a fault. The second value is what is printed.
unfoldable pub echo_round : Option Datagram → Bytes → Run (Bytes × Act)
echo_round none echo_buffer = fault
echo_round (some datagram) echo_buffer = do
  let d = take echo_max datagram.payload
  b ← store (d ++ drop (length d) echo_buffer) (length d) (0 ∷ [])
  text ← string_at b
  ok (b, from datagram.addr datagram.port text)

-- The rounds for the datagrams that arrive, and all that is printed.
unfoldable pub serve : List (Option Datagram) → Bytes → Run (List Act)
serve [] echo_buffer = ok []
serve (r ∷ rs) echo_buffer = do
  (b, printed) ← echo_round r echo_buffer
  more ← serve rs b
  ok (printed ∷ more)

-- `main` of the server up to the end of these rounds. A socket that could not be made or bound is only
-- reported.
unfoldable pub server_main : Network → List (Option Datagram) → Bytes → Run (List Act)
server_main net rounds echo_buffer = do
  acts ← serve rounds echo_buffer
  let bound = net.bind net.socket (htonl inaddr_any) (htons echo_serv_port)
  ok (
      if_said (is_negative net.socket) socket_failed
      ++ (if_said (is_negative bound) bind_failed ++ acts))
