-- ===== src/Tests/Files.antt =====
-- A connection and a file system of lists.
use internet_applications.Base.{
  ℕ, zero, suc, ◌<◌, ◌≡◌, refl, sym, none, some, Option, [], ◌∷◌, ◌++◌, Bytes, ok, length, arith,
  take, drop, ap, take-le, take-append-drop, replicate, pos, negsuc,
}
use internet_applications.Options.{store}
use internet_applications.Echo.{string_at}
use internet_applications.Words.{htons}
use internet_applications.FileTransfer.{
  Source, Sink, Reads, Writes, nothing, ended, add_size, transfer, send_file,
}
use internet_applications.FileTransfer.Request.{
  Network, socket_failed, bind_failed, accepted, connecting, file_received, bytes_received,
  send_named, serve_client, server_main, client_main,
}
use internet_applications.FileTransfer.Named.{bak, serving, leaving, request_arrives, leftover_name}

-- A descriptor is the list of the bytes that are left, or that were written.
abbrev list_source : Source Bytes
list_source = record { read = λ d n. (some (take n d), drop n d) }

abbrev appended : Bytes → Option Bytes → Option ℕ × Bytes
appended s none = (none, s)
appended s (some chunk) = (some (length chunk), s ++ chunk)

abbrev list_sink : Sink Bytes
list_sink = record { write = appended }

-- A file is what stands before the offset, and from it on.
record File : Type 0 where
  pub before : Bytes
  pub behind : Bytes

abbrev overwritten : File → Option Bytes → Option ℕ × File
overwritten s none = (none, s)
overwritten s (some chunk) = (
  some (length chunk),
  record { before = s.before ++ chunk; behind = drop (length chunk) s.behind },
)

abbrev old_file : Bytes → File
old_file b = record { before = []; behind = b }

abbrev file_sink : Sink File
file_sink = record { write = overwritten }

take-nil : (n : ℕ) (d : Bytes) → 0 < n → take n d ≡ [] → d ≡ []
take-nil zero d h e = absurd (omega arith)
take-nil (suc n) [] h e = refl
take-nil (suc n) (x ∷ d) h e = absurd (cc)

list_source-Reads : Reads list_source (λ d. d)
list_source-Reads = record {
  next = λ d n positive. (take n d, refl, sym (take-append-drop n d), take-nil n d positive);
}

some-same : {a b : ℕ} → ◌≡◌ {A = Option ℕ} (some a) (some b) → a ≡ b
some-same e = cc

drop-nil : (n : ℕ) → ◌≡◌ {A = Bytes} (drop n []) []
drop-nil zero = refl
drop-nil (suc n) = refl

list_sink-Writes : Writes list_sink (λ s. s) nothing
list_sink-Writes = record {
  takes = λ s chunk n e.
      let all : length chunk ≡ n = some-same e in
      (
        omega (arith, all),
        ap (λ c. s ++ c) (sym (take-le n chunk (omega (arith, all)))),
        sym (drop-nil n),
      );
}

file_sink-Writes : Writes file_sink (λ s. s.before) (λ s. s.behind)
file_sink-Writes = record {
  takes = λ s chunk n e.
      let all : length chunk ≡ n = some-same e in
      (
        omega (arith, all),
        ap (λ c. s.before ++ c) (sym (take-le n chunk (omega (arith, all)))),
        ap (λ m. drop m s.behind) all,
      );
}

-- The name "log", and "at" behind it.
abbrev log : Bytes
log = 108 ∷ 111 ∷ 103 ∷ []

abbrev at : Bytes
at = 97 ∷ 116 ∷ []

-- A file of 120 bytes for each name.
abbrev open_list : Bytes → Bytes
open_list name = replicate 120 (length name)

-- Calls that fail, which the programs only report.
abbrev broken : Network
broken = record {
  socket = negsuc 0;
  bind = λ sock addr port. negsuc 0;
  inet_addr = λ ip. length ip;
}

-- What the file of the client held before, 130 bytes.
abbrev older : Bytes
older = replicate 130 1

request_arrives_example :
    (s₁ : Bytes) × (t₁ : File) × (server_main list_source list_sink open_list 200 broken
        (record { addr = 7; port = 9; request = some log; connection = [] } ∷ [])
        (replicate 20 0)
      ≡ ok (s₁ ∷ [], socket_failed ∷ bind_failed ∷ accepted 7 9 ∷ serving log (pos 120)))
    × (client_main list_source file_sink s₁
          (λ name. old_file older)
          200
          broken
          ((99 ∷ 0 ∷ []) ∷ (49 ∷ 0 ∷ []) ∷ (log ++ 0 ∷ replicate 4 1) ∷ [])
        ≡ ok (
          0,
          some (record { addr = 1; port = htons 1234; request = log; file = t₁ }),
          socket_failed
              ∷ connecting (49 ∷ [])
              ∷ file_received
              ∷ bytes_received (pos 120) (log ++ bak)
              ∷ [],
        ))
    × (t₁.before ++ t₁.behind ≡ replicate 120 3 ++ drop 120 older)
request_arrives_example =
    request_arrives list_source list_sink list_source file_sink (λ d. d) (λ s. s) (λ d. d)
      (λ s. s.before) (λ s. s.behind) (λ s. s) open_list (λ name. old_file older) (λ name. older)
      list_source-Reads list_sink-Writes list_source-Reads file_sink-Writes (λ s. refl)
      (λ name. (refl, refl)) broken broken 200 (99 ∷ 0 ∷ []) (49 ∷ []) log (replicate 4 1)
      (replicate 16 0) (replicate 20 0)
      (record { addr = 7; port = 9; request = some log; connection = [] }) (λ s chunk. refl)
      (λ s chunk. refl) (omega arith, tt) (omega arith, (omega arith, (omega arith, tt)))
      (omega arith) (omega arith) (omega arith) refl refl (omega arith) (omega arith) refl

sent_log :
    serve_client list_source list_sink open_list 200 (some log) (replicate 20 0) []
    ≡ ok (log ++ replicate 17 0, replicate 120 3, serving log (pos 120))
unfolding serve_client send_named send_file transfer add_size ended string_at store
sent_log = refl

leftover_name_example :
    serve_client list_source list_sink open_list 200 (some at) (log ++ replicate 17 0) []
    ≡ leaving
        (at ++ 103 ∷ [])
        (at ++ 103 ∷ replicate 17 0)
        (send_file list_source list_sink 200 (open_list (at ++ 103 ∷ [])) [])
leftover_name_example =
    leftover_name list_source list_sink open_list 200 log at (replicate 16 0) (replicate 20 0)
      (log ++ replicate 17 0) [] (replicate 120 3) [] (serving log (pos 120))
      (omega arith, (omega arith, (omega arith, tt))) (omega arith, (omega arith, tt)) (omega arith)
      (omega arith) (omega arith) refl sent_log
