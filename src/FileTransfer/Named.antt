-- ===== src/FileTransfer/Named.antt =====
-- Which file the client gets.
use internet_applications.Base.{
  ℕ, if_said, zero, suc, Run-cases, inl, inr, append-nil, ◌≤◌, ◌<◌, ◌^◌, ◌≡◌, refl, ap, sym, ◌∙◌,
  some, List, [], ◌∷◌, ◌++◌, append_assoc, Bytes, Run, ok, ◌>>=◌, length, take, take-le, drop,
  arith, ℤ, pos, is_negative,
}
use internet_applications.Words.{htons}
use internet_applications.Options.{store}
use internet_applications.Options.Fill.{store-append}
use internet_applications.Echo.Printed.{NoNul, string_at-terminated}
use internet_applications.FileTransfer.{Source, Sink, Reads, Writes, IsWhole, nothing, send_file}
use internet_applications.FileTransfer.Copied.{file_arrives}
use internet_applications.FileTransfer.Request.{
  Act, socket_failed, bind_failed, accepted, requested, entering, end_of_file, bytes_sent,
  connecting, file_received, bytes_received, Network, Accepted, localhost, fill_name, send_named,
  serve_client, serve_clients, server_main, ask, client_main,
}

NoNul-append : (u w : Bytes) → NoNul u → NoNul w → NoNul (u ++ w)
NoNul-append [] w h k = k
NoNul-append (c ∷ u) w h k = (h.0, NoNul-append u w h.1 k)

-- The suffix ".bak".
abbrev pub bak : Bytes
bak = 46 ∷ 98 ∷ 97 ∷ 107 ∷ []

-- What the server prints of a file of some size.
abbrev pub serving : (name : Bytes) → ℤ → List Act
serving name size = requested name ∷ entering ∷ end_of_file ∷ bytes_sent size ∷ []

-- What a round of the server gives for a name whose loop gives `r`: the buffer, the connection, and what is
-- printed.
abbrev pub leaving :
    {D S : Type 0} → (name buffer : Bytes) → Run (D × S × ℤ) → Run (Bytes × S × List Act)
leaving {S} name b r = ◌>>=◌ {B = Bytes × S × List Act} r (λ x. ok (b, x.1, serving name x.2))

-- The client sends its argument, and writes to the name with the suffix, if five bytes behind the
-- argument can be written.
ask_lem :
    (name room : Bytes)
    → NoNul name
    → 4 ≤ length room
    → ask (name ++ 0 ∷ room) ≡ ok (name, name ++ bak)
unfolding ask
ask_lem name room clean space =
    let more = drop 5 (0 ∷ room) in
    let suffix : Bytes = 46 ∷ 98 ∷ 97 ∷ 107 ∷ 0 ∷ [] in
    let bak_clean : NoNul bak = (omega arith, (omega arith, (omega arith, (omega arith, tt)))) in
    let put : store (name ++ 0 ∷ room) (length name) suffix ≡ ok (name ++ bak ++ 0 ∷ more) =
      store-append name (0 ∷ room) suffix (omega arith)
      ∙ ap ok (append_assoc name suffix more ∙ sym (append_assoc name bak (0 ∷ more))) in
    let named = string_at-terminated (name ++ bak) more (NoNul-append name bak clean bak_clean) in
    rw (string_at-terminated name room clean, put, named) refl

module _ {D S : Type 0} (source : Source D) (sink : Sink S) (open_file : Bytes → D) (fuel : ℕ) where
  -- The server opens the name that is in its buffer, up to the first 0.
  send_named_lem :
      (name more : Bytes) (socket : S)
      → NoNul name
      → send_named source sink open_file fuel (name ++ 0 ∷ more) socket
        ≡ leaving name (name ++ 0 ∷ more) (send_file source sink fuel (open_file name) socket)
  unfolding send_named
  send_named_lem name more socket clean =
      let put : store (name ++ 0 ∷ more) (length name) (0 ∷ []) ≡ ok (name ++ 0 ∷ more) =
        store-append name (0 ∷ more) (0 ∷ []) (omega arith)
        ∙ ap ok (append_assoc name (0 ∷ []) more) in
      rw (string_at-terminated name more clean, put, string_at-terminated name more clean) refl

  -- A request writes over the first bytes of the name that the buffer holds, and no 0 behind them: the
  -- file that is opened has the name of the request, followed by what is left of the name before.
  serve_client_opens :
      (request left more file_name : Bytes) (socket : S)
      → NoNul request
      → NoNul left
      → 0 < length request
      → length request ≤ 20
      → drop (length request) file_name ≡ left ++ 0 ∷ more
      → serve_client source sink open_file fuel (some request) file_name socket
        ≡ leaving
            (request ++ left)
            (request ++ left ++ 0 ∷ more)
            (send_file source sink fuel (open_file (request ++ left)) socket)
  unfolding serve_client
  serve_client_opens [] left more file_name socket clean clean' some_bytes fits behind =
      absurd (omega arith)
  serve_client_opens (c ∷ request) left more file_name socket clean clean' some_bytes fits behind =
      let name : Bytes = c ∷ request in
      let all : take 20 name ≡ name = take-le 20 name fits in
      let filled : fill_name (some name) file_name ≡ name ++ left ++ 0 ∷ more =
        ap (λ r. r ++ drop (length r) file_name) all
        ∙ ap (λ r. name ++ r) behind
        ∙ sym (append_assoc name left (0 ∷ more)) in
      ap (λ b. send_named source sink open_file fuel b socket) filled
      ∙ send_named_lem (name ++ left) more socket (NoNul-append name left clean clean')

drop-append_left : (n : ℕ) (xs ys : Bytes) → n ≤ length xs → drop n (xs ++ ys) ≡ drop n xs ++ ys
drop-append_left zero xs ys h = refl
drop-append_left (suc n) [] ys h = absurd (omega arith)
drop-append_left (suc n) (x ∷ xs) ys h = drop-append_left n xs ys (omega arith)

NoNul-drop : (n : ℕ) (xs : Bytes) → NoNul xs → NoNul (drop n xs)
NoNul-drop zero xs h = h
NoNul-drop (suc n) [] h = tt
NoNul-drop (suc n) (x ∷ xs) h = NoNul-drop n xs h.1

-- What a server that has sent a file leaves in its buffer.
served_buffer :
    {D S : Type 0} (r : Run (D × S × ℤ)) (name b b₁ : Bytes) (s₁ : S) (acts : List Act)
    → leaving name b r ≡ ok (b₁, s₁, acts)
    → b₁ ≡ b
served_buffer r name b b₁ s₁ acts run = elim (Run-cases r) [
  | inl ((d, s, size), e) ↦ let run' = rw e at run in cc
  | inr (inl e) ↦ absurd (let run' = rw e at run in cc)
  | inr (inr e) ↦ absurd (let run' = rw e at run in cc)
]

-- After a client whose name was served from a buffer with a 0 behind it, the next client that asks for
-- a shorter name is sent another file: the one whose name is the request with the end of the name before.
pub leftover_name :
    {D S : Type 0} (source : Source D) (sink : Sink S) (open_file : Bytes → D) (fuel : ℕ)
    (first second more file_name b₁ : Bytes) (s s₁ s₂ : S) (acts : List Act)
    → NoNul first
    → NoNul second
    → length first ≤ 20
    → 0 < length second
    → length second < length first
    → drop (length first) file_name ≡ 0 ∷ more
    → serve_client source sink open_file fuel (some first) file_name s ≡ ok (b₁, s₁, acts)
    → serve_client source sink open_file fuel (some second) b₁ s₂
      ≡ leaving
          (second ++ drop (length second) first)
          (second ++ drop (length second) first ++ 0 ∷ more)
          (send_file source sink fuel (open_file (second ++ drop (length second) first)) s₂)
leftover_name source sink open_file fuel first second more file_name b₁ s s₁ s₂ acts clean clean'
      fits some_bytes shorter behind run =
    let opens =
      serve_client_opens source sink open_file fuel first [] more file_name s clean tt (omega arith)
        fits behind in
    let kept : b₁ ≡ first ++ 0 ∷ more =
      served_buffer (send_file source sink fuel (open_file (first ++ [])) s) (first ++ [])
        (first ++ [] ++ 0 ∷ more) b₁ s₁ acts (sym opens ∙ run)
      ∙ append_assoc first [] (0 ∷ more) in
    serve_client_opens source sink open_file fuel second (drop (length second) first) more b₁ s₂
      clean' (NoNul-drop (length second) first clean) some_bytes (omega arith)
      (ap (drop (length second)) kept
        ∙ drop-append_left (length second) first (0 ∷ more) (omega arith))

module _ {D S D' S' : Type 0} (source : Source D) (sink : Sink S) (stream : Source D')
    (store : Sink S') (rest : D → Bytes) (sent : S → Bytes) (arriving : D' → Bytes)
    (before behind : S' → Bytes) (connected : S → D') (open_file : Bytes → D)
    (open_store : Bytes → S') (old : Bytes → Bytes) (reads : Reads source rest)
    (writes : Writes sink sent nothing) (reads' : Reads stream arriving)
    (writes' : Writes store before behind) (delivers : (s : S) → arriving (connected s) ≡ sent s)
    (opens : (name : Bytes)
      → (before (open_store name) ≡ []) × (behind (open_store name) ≡ old name)) where
  -- The client and the server run on one request, where no read, recv, write or send fails or is short, the
  -- request arrives whole and is a name of 1 to 19 bytes with a 0 behind it in the server's buffer, there
  -- is room behind the argument of the client, the connection gives what the server has sent, the file
  -- of the client is opened at its first byte with what it held, the file of the server has less than
  -- 2 ^ 31 bytes, and the rounds allowed are more than its bytes. Whatever socket and bind return, both
  -- programs get through their loops: the server has sent a file and prints its size, and the client
  -- returns 0, has sent the name to the port 1234 at its argument, and prints the same size. The file with
  -- the name and ".bak" then begins with the whole file of that name; as it is not truncated, what
  -- it held before beyond that size still follows.
  pub request_arrives :
      (client server : Network) (fuel : ℕ) (program ip name room more file_name : Bytes)
      (c : Accepted S)
      → IsWhole sink
      → IsWhole store
      → NoNul ip
      → NoNul name
      → 0 < length name
      → length name < 20
      → 4 ≤ length room
      → c.request ≡ some name
      → drop (length name) file_name ≡ 0 ∷ more
      → length (rest (open_file name)) < fuel
      → length (rest (open_file name)) < 2 ^ 31
      → sent c.connection ≡ []
      → let size = pos (length (rest (open_file name))) in
        (s₁ : S) × (t₁ : S') × (server_main source sink open_file fuel server (c ∷ []) file_name
          ≡ ok (
            s₁ ∷ [],
            if_said (is_negative server.socket) socket_failed
                ++ (if_said
                      (is_negative
                        (server.bind server.socket (server.inet_addr localhost) (htons 1234)))
                      bind_failed
                    ++ accepted c.addr c.port ∷ serving name size),
          ))
        × (client_main stream store
              (connected s₁)
              open_store
              fuel
              client
              (program ∷ (ip ++ 0 ∷ []) ∷ (name ++ 0 ∷ room) ∷ [])
            ≡ ok (
              0,
              some (record {
                addr = client.inet_addr ip;
                port = htons 1234;
                request = name;
                file = t₁;
              }),
              if_said (is_negative client.socket) socket_failed
                  ++ connecting ip ∷ file_received ∷ bytes_received size (name ++ bak) ∷ [],
            ))
        × (before t₁ ++ behind t₁
            ≡ rest (open_file name) ++ drop (length (rest (open_file name))) (old (name ++ bak)))
  unfolding server_main serve_clients client_main
  request_arrives client server fuel program ip name room more file_name c whole whole' readable
        clean some_bytes fits space asked terminated enough bound fresh =
      let (d₁, s₁, c₁, t₁, run, run', out, left) =
        file_arrives source sink stream store rest sent arriving before behind connected reads
          writes whole reads' writes' whole' delivers fuel (open_file name) c.connection
          (open_store (name ++ bak)) enough bound fresh in
      let size = pos (length (rest (open_file name))) in
      let content = rest (open_file name) in
      let (start, held) = opens (name ++ bak) in
      let opened =
        serve_client_opens source sink open_file fuel name [] more file_name c.connection clean tt
          some_bytes (omega arith) terminated in
      let served : serve_client source sink open_file fuel (some name) file_name c.connection
          ≡ ok (name ++ [] ++ 0 ∷ more, s₁, serving name size) =
        opened ∙ rw (append-nil name, run) refl in
      (
        s₁,
        t₁,
        rw (asked) (rw (served) refl),
        rw (string_at-terminated ip [] readable, ask_lem name room clean space) (rw (run') refl),
        ap (λ b. b ++ behind t₁) (out ∙ ap (λ b. b ++ content) start)
            ∙ ap (λ b. content ++ b) (left ∙ ap (drop (length content)) held),
      )
