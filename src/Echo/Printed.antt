-- ===== src/Echo/Printed.antt =====
-- What the server prints of the words of the client.
use internet_applications.Base.{
  ℕ, if_said, suc, ◌-◌, ◌≤◌, ◌<◌, ◌≡◌, ◌≢◌, refl, ap, ◌∙◌, Bool, true, false, Option, some, List,
  [], ◌∷◌, ◌++◌, append_assoc, Bytes, ok, fault, ltb, ne→==, length, length-append, length-drop,
  length-take, take, take-le, drop, arith, ℤ, is_negative,
}
use internet_applications.Protocol.{inaddr_any}
use internet_applications.Words.{htonl, htons}
use internet_applications.Options.{store}
use internet_applications.Options.Fill.{store-append}
use internet_applications.Echo.{
  Act, usage, socket_failed, bind_failed, word_too_long, other_length, sending_to, from, sent,
  closed, Network, Datagram, other_size, echo_max, string_at, send_words, client_main, echo_round,
  serve, server_main,
}

-- A word has no byte 0, and with its end it fits the server's buffer.
abbrev pub NoNul : Bytes → Type 0
NoNul [] = Unit
NoNul (c ∷ w) = (c ≢ 0) × NoNul w

abbrev pub Words : List Bytes → Type 0
Words [] = Unit
Words (w ∷ ws) = (NoNul w × (length w < 255)) × Words ws

-- The words as they lie in the memory of the client, and as they arrive.
abbrev pub stored : List Bytes → List Bytes
stored [] = []
stored (w ∷ ws) = (w ++ 0 ∷ []) ∷ stored ws

-- The calls of `sendto` for words, and those among what a program did.
abbrev pub sending : ℤ → (addr port : ℕ) → List Bytes → List Act
sending sock addr port [] = []
sending sock addr port (w ∷ ws) = sent sock addr port w ∷ sending sock addr port ws

unfoldable pub sends : List Act → List Act
sends [] = []
sends (sent sock addr port w ∷ acts) = sent sock addr port w ∷ sends acts
sends (a ∷ acts) = sends acts

-- The datagrams that were sent, as they arrive from an address and a port.
abbrev pub arriving : (addr port : ℕ) → List Act → List (Option Datagram)
arriving addr port [] = []
arriving addr port (sent sock to_addr to_port w ∷ acts) =
    some (record { addr = addr; port = port; payload = w }) ∷ arriving addr port acts
arriving addr port (a ∷ acts) = arriving addr port acts

abbrev pub printing : (addr port : ℕ) → List Bytes → List Act
printing addr port [] = []
printing addr port (w ∷ ws) = from addr port w ∷ printing addr port ws

pub string_at-terminated : (w more : Bytes) → NoNul w → string_at (w ++ (0 ∷ more)) ≡ ok w
unfolding string_at
string_at-terminated [] more h = refl
string_at-terminated (c ∷ w) more h = rw (ne→== c 0 h.0, string_at-terminated w more h.1) refl

-- A shorter datagram is printed as it is, whatever the buffer held.
echo_round-prints :
    (addr port : ℕ) (w b : Bytes)
    → length b ≡ 255
    → NoNul w
    → length w < 255
    → (b' : Bytes) × (echo_round (some (record { addr = addr; port = port; payload = w })) b
        ≡ ok (b', from addr port w))
      × (length b' ≡ 255)
unfolding echo_round
echo_round-prints addr port w b size clean short =
    let all : take 255 w ≡ w = take-le 255 w (omega arith) in
    let behind : length (drop (length w) b) ≡ 255 - length w =
      omega (arith, length-drop (length w) b) in
    let more = drop 1 (drop (length w) b) in
    let b' = w ++ (0 ∷ more) in
    let put : store (w ++ drop (length w) b) (length w) (0 ∷ []) ≡ ok b' =
      store-append w (drop (length w) b) (0 ∷ []) (omega (arith, behind))
      ∙ ap ok (append_assoc w (0 ∷ []) more) in
    (
      b',
      rw (all) (rw (put) (rw (string_at-terminated w more clean) refl)),
      omega (arith, length-append w (0 ∷ more), length-drop 1 (drop (length w) b), behind),
    )

-- A datagram that fills the buffer has its end written behind it; what is longer is cut to that length.
echo_round_overflows :
    (d : Datagram) (b : Bytes)
    → length b ≡ 255
    → 255 ≤ length d.payload
    → echo_round (some d) b ≡ fault
unfolding echo_round store
echo_round_overflows d b size long =
    let full = length-take 255 d.payload long in
    let whole : length (take 255 d.payload ++ drop 255 b) ≡ 255 =
      omega (arith, full, length-drop 255 b, length-append (take 255 d.payload) (drop 255 b)) in
    rw (full) (rw (whole) refl)

serve-arriving :
    (addr port : ℕ) (sock : ℤ) (to_addr to_port : ℕ) (ws : List Bytes) (b : Bytes)
    → length b ≡ 255
    → Words ws
    → serve (arriving addr port (sending sock to_addr to_port ws)) b ≡ ok (printing addr port ws)
unfolding serve
serve-arriving addr port sock to_addr to_port [] b size h = refl
serve-arriving addr port sock to_addr to_port (w ∷ ws) b size h =
    let (b', run, size') = echo_round-prints addr port w b size h.0.0 h.0.1 in
    rw (run) (rw (serve-arriving addr port sock to_addr to_port ws b' size' h.1) refl)

-- A message on the way is no datagram.
sends-if_said :
    (test : Bool) (a : Act) (acts : List Act)
    → sends (a ∷ acts) ≡ sends acts
    → sends (if_said test a ++ acts) ≡ sends acts
sends-if_said true a acts quiet = quiet
sends-if_said false a acts quiet = refl

sends-closed : (acts : List Act) (sock : ℤ) → sends (acts ++ closed sock ∷ []) ≡ sends acts
unfolding sends
sends-closed [] sock = refl
sends-closed (usage p ∷ acts) sock = sends-closed acts sock
sends-closed (socket_failed ∷ acts) sock = sends-closed acts sock
sends-closed (bind_failed ∷ acts) sock = sends-closed acts sock
sends-closed (word_too_long ∷ acts) sock = sends-closed acts sock
sends-closed (other_length ∷ acts) sock = sends-closed acts sock
sends-closed (sending_to s ∷ acts) sock = sends-closed acts sock
sends-closed (from a p t ∷ acts) sock = sends-closed acts sock
sends-closed (sent s a p w ∷ acts) sock = ap (λ l. sent s a p w ∷ l) (sends-closed acts sock)
sends-closed (closed s ∷ acts) sock = sends-closed acts sock

arriving-sends :
    (addr port : ℕ) (acts : List Act) → arriving addr port acts ≡ arriving addr port (sends acts)
unfolding sends
arriving-sends addr port [] = refl
arriving-sends addr port (usage p ∷ acts) = arriving-sends addr port acts
arriving-sends addr port (socket_failed ∷ acts) = arriving-sends addr port acts
arriving-sends addr port (bind_failed ∷ acts) = arriving-sends addr port acts
arriving-sends addr port (word_too_long ∷ acts) = arriving-sends addr port acts
arriving-sends addr port (other_length ∷ acts) = arriving-sends addr port acts
arriving-sends addr port (sending_to s ∷ acts) = arriving-sends addr port acts
arriving-sends addr port (from a p t ∷ acts) = arriving-sends addr port acts
arriving-sends addr port (sent s a p w ∷ acts) =
    ap (λ l. some (record { addr = addr; port = port; payload = w }) ∷ l)
      (arriving-sends addr port acts)
arriving-sends addr port (closed s ∷ acts) = arriving-sends addr port acts

module _ (net : Network) (sock : ℤ) (addr port : ℕ) (ip : Bytes) (readable : NoNul ip) where
  send_words-stored :
      (call : ℕ) (ws : List Bytes)
      → Words ws
      → (acts : List Act) × (send_words net sock addr port (ip ++ 0 ∷ []) call (stored ws)
          ≡ ok acts)
        × (sends acts ≡ sending sock addr port ws)
  unfolding send_words sends
  send_words-stored call [] h = ([], refl, refl)
  send_words-stored call (w ∷ ws) h =
      let (acts, run, same) = send_words-stored (suc call) ws h.1 in
      let other = other_size (net.sendto call w) (length w) in
      let behind = sending_to ip ∷ acts in
      (
        if_said (ltb echo_max (length w)) word_too_long
            ++ sent sock addr port w ∷ (if_said other other_length ++ behind),
        rw (string_at-terminated w [] h.0.0, string_at-terminated ip [] readable, run) refl,
        sends-if_said (ltb echo_max (length w)) word_too_long
              (sent sock addr port w ∷ (if_said other other_length ++ behind)) refl
            ∙ ap (λ l. sent sock addr port w ∷ l)
                (sends-if_said other other_length behind refl ∙ same),
      )

module _ (client server : Network) (program ip w : Bytes) (ws : List Bytes) (addr port : ℕ)
    (b : Bytes) where
  -- Given one word or more, each of fewer than 255 bytes and none of them 0, the echo client returns 0.
  -- Whatever its calls return, the datagrams that it sends are the words, in their order, to the port
  -- 56325 at the address that inet_addr makes of its argument, and where they arrive, in this order, the
  -- server prints them, each with the address and the port of the client, whatever its buffer of 255
  -- bytes held before. If the server could not make or bind its socket, it says so before.
  pub echo_delivers :
      NoNul ip
      → Words (w ∷ ws)
      → length b ≡ 255
      → (acts : List Act) × (client_main client (program ∷ (ip ++ 0 ∷ []) ∷ stored (w ∷ ws))
          ≡ ok (0, acts))
        × (sends acts ≡ sending client.socket (client.inet_addr ip) (htons 56325) (w ∷ ws))
        × (server_main server (arriving addr port acts) b
            ≡ ok (
                if_said (is_negative server.socket) socket_failed
                ++ (if_said
                      (is_negative (server.bind server.socket (htonl inaddr_any) (htons 56325)))
                      bind_failed
                    ++ printing addr port (w ∷ ws))))
  unfolding client_main server_main sends
  echo_delivers readable h size =
      let to = client.inet_addr ip in
      let (acts, run, same) =
        send_words-stored client client.socket to (htons 56325) ip readable 0 (w ∷ ws) h in
      let all =
        if_said (is_negative client.socket) socket_failed ++ (acts ++ closed client.socket ∷ []) in
      let datagrams : sends all ≡ sending client.socket to (htons 56325) (w ∷ ws) =
        sends-if_said (is_negative client.socket) socket_failed (acts ++ closed client.socket ∷ [])
          refl
        ∙ sends-closed acts client.socket
        ∙ same in
      let heard : arriving addr port all
          ≡ arriving addr port (sending client.socket to (htons 56325) (w ∷ ws)) =
        arriving-sends addr port all ∙ ap (arriving addr port) datagrams in
      (
        all,
        rw (string_at-terminated ip [] readable) (rw (run) refl),
        datagrams,
        rw (heard)
            (rw (serve-arriving addr port client.socket to (htons 56325) (w ∷ ws) b size h) refl),
      )
