-- ===== src/FileTransfer.antt =====
-- l7-Server.c and l7-Client.c: a file that the server sends over a connection and the client stores.
-- What `read`, `recv`, `send` and `write` do is a parameter.
pub mod Copied
pub mod Request
pub mod Named
use internet_applications.Base.{
  ℕ, zero, suc, ◌≤◌, take, drop, ◌+◌, ◌-◌, ◌^◌, ◌<◌, ◌≡◌, Bool, true, false, Option, none, some, [],
  ◌∷◌, ◌++◌, Bytes, Run, ok, fault, out_of_fuel, ◌>>=◌, ltb, length, if◌then◌else◌, ℤ, pos, negsuc,
}

-- A descriptor to read from: `read(d, buffer, n)` gives some bytes, or fails with -1 (`none`).
pub record Source (D : Type 0) : Type 0 where
  pub read : D → ℕ → Option Bytes × D

-- A descriptor to write to, with the bytes of the buffer, or a length of -1 (`none`): how many bytes it takes,
-- or that it fails with -1 (`none`).
pub record Sink (S : Type 0) : Type 0 where
  pub write : S → Option Bytes → Option ℕ × S

-- The documented behaviour of a read that does not fail: it gives the next bytes, at most `n` of them,
-- and none only at the end.
pub record Reads {D : Type 0} (source : Source D) (rest : D → Bytes) : Type 0 where
  pub next :
      (d : D) (n : ℕ)
      → 0 < n
      → (chunk : Bytes) × ((source.read d n).0 ≡ some chunk)
        × (rest d ≡ chunk ++ rest (source.read d n).1)
        × (chunk ≡ [] → rest d ≡ [])

-- The documented behaviour of a write that does not fail: it takes the first bytes of the buffer, perhaps not
-- all. They go to the offset, in place of as many that stand there, and the offset moves behind them.
-- `before` and `behind` are what stands before the offset and from it on.
pub record Writes {S : Type 0} (sink : Sink S) (before behind : S → Bytes) : Type 0 where
  pub takes :
      (s : S) (chunk : Bytes) (n : ℕ)
      → (sink.write s (some chunk)).0 ≡ some n
      → (n ≤ length chunk)
        × (before (sink.write s (some chunk)).1 ≡ before s ++ take n chunk)
        × (behind (sink.write s (some chunk)).1 ≡ drop n (behind s))

-- No write is short.
abbrev pub IsWhole : {S : Type 0} → Sink S → Type 0
IsWhole {S} sink = (s : S) (chunk : Bytes) → (sink.write s (some chunk)).0 ≡ some (length chunk)

-- Nothing stands behind what is sent on a connection.
abbrev pub nothing : {S : Type 0} → S → Bytes
nothing s = []

-- `(len = read(…)) != 0` does not hold.
unfoldable pub ended : Option Bytes → Bool
ended none = false
ended (some []) = true
ended (some (x ∷ chunk)) = false

-- `transferSize += len`, where `none` is a length of -1. An `int` that overflows is a fault.
unfoldable pub add_size : ℤ → Option Bytes → Run ℤ
add_size (pos n) (some chunk) =
    if ltb (n + length chunk) (2 ^ 31) then ok (pos (n + length chunk)) else fault
add_size (negsuc n) (some chunk) =
    if ltb n (length chunk)
    then ok (pos (length chunk - (n + 1)))
    else ok (negsuc (n - length chunk))
add_size (pos zero) none = ok (negsuc 0)
add_size (pos (suc n)) none = ok (pos n)
add_size (negsuc n) none = if ltb (n + 1) (2 ^ 31) then ok (negsuc (n + 1)) else fault

module _ {D S : Type 0} (source : Source D) (sink : Sink S) where
  -- `while ((len = read(from, buffer, 50)) != 0) { write(to, buffer, len); transferSize += len; }`. The count
  -- that `write` returns is not looked at.
  unfoldable pub transfer : (fuel : ℕ) → D → S → (transfer_size : ℤ) → Run (D × S × ℤ)
  transfer zero d s size = out_of_fuel
  transfer (suc fuel) d s size =
      let (result, d') = source.read d 50 in
      let later =
        add_size size result >>= λ size'. transfer fuel d' (sink.write s result).1 size' in
      if ended result then ok (d', s, size) else later

  -- The loops of the two programs: the server reads the file and writes to the connection, the client
  -- reads the connection and writes the file. The number is `transferSize`.
  unfoldable pub send_file : (fuel : ℕ) → D → S → Run (D × S × ℤ)
  send_file fuel file socket = transfer fuel file socket (pos 0)

  unfoldable pub receive_file : (fuel : ℕ) → D → S → Run (D × S × ℤ)
  receive_file fuel socket file = transfer fuel socket file (pos 0)
