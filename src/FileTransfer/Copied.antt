-- ===== src/FileTransfer/Copied.antt =====
-- What the loop of the file transfer leaves at the other end.
use internet_applications.Base.{
  ℕ, zero, suc, take, take-le, drop, drop-drop, ◌+◌, ◌^◌, ◌<◌, ◌≡◌, ◌≢◌, refl, ap, sym, ◌∙◌, true,
  Option, none, some, [], ◌∷◌, ◌++◌, append_assoc, append-nil, Bytes, ok, ◌>>=◌, Run-cases, inl,
  inr, if◌then◌else◌, ltb, lt→ltb, length, length-append, arith, ℤ, pos,
}
use internet_applications.FileTransfer.{
  Source, Sink, Reads, Writes, IsWhole, nothing, ended, add_size, transfer, send_file, receive_file,
}

module _ {D S : Type 0} (source : Source D) (sink : Sink S) (rest : D → Bytes)
    (before behind : S → Bytes) (reads : Reads source rest) (writes : Writes sink before behind)
    (whole : IsWhole sink) where
  -- One round of the loop on the bytes of a read.
  transfer-round :
      (fuel : ℕ) (d : D) (s : S) (size : ℤ) (result : Option Bytes)
      → (source.read d 50).0 ≡ result
      → transfer source sink (suc fuel) d s size ≡ (
          if ended result
          then ok ((source.read d 50).1, s, size)
          else (add_size size result >>= λ size'.
              transfer source sink fuel (source.read d 50).1 (sink.write s result).1 size'))
  unfolding transfer
  transfer-round fuel d s size result e = rw (← e) refl

  -- All bytes have been read and counted, and they stand at the offset, in place of as many.
  abbrev Copies : ℕ → D → S → ℕ → Type 0
  Copies fuel d s size =
      (d' : D) × (s' : S) × (transfer source sink fuel d s (pos size)
        ≡ ok (d', s', pos (size + length (rest d))))
      × (rest d' ≡ [])
      × (before s' ≡ before s ++ rest d)
      × (behind s' ≡ drop (length (rest d)) (behind s))

  round-Copies :
      (fuel : ℕ) (d : D) (s : S) (size : ℕ) (chunk : Bytes)
      → ((d₁ : D) (s₁ : S) (size₁ : ℕ)
          → length (rest d₁) < fuel
          → size₁ + length (rest d₁) < 2 ^ 31
          → Copies fuel d₁ s₁ size₁)
      → length (rest d) < suc fuel
      → size + length (rest d) < 2 ^ 31
      → (source.read d 50).0 ≡ some chunk
      → rest d ≡ chunk ++ rest (source.read d 50).1
      → (chunk ≡ [] → rest d ≡ [])
      → Copies (suc fuel) d s size
  unfolding ended add_size
  round-Copies fuel d s size [] later h bound got splits over =
      let none_left : size ≡ size + length (rest d) = omega (arith, ap length (over refl)) in
      (
        (source.read d 50).1,
        s,
        transfer-round fuel d s (pos size) (some []) got
            ∙ ap (λ n. ok ((source.read d 50).1, s, pos n)) none_left,
        sym splits ∙ over refl,
        sym (ap (λ b. before s ++ b) (over refl) ∙ append-nil (before s)),
        ap (λ b. drop (length b) (behind s)) (sym (over refl)),
      )
  round-Copies fuel d s size (x ∷ chunk) later h bound got splits over =
      let d₁ = (source.read d 50).1 in
      let s₁ = (sink.write s (some (x ∷ chunk))).1 in
      let (fits, placed, kept) =
        writes.takes s (x ∷ chunk) (length (x ∷ chunk)) (whole s (x ∷ chunk)) in
      let all : take (length (x ∷ chunk)) (x ∷ chunk) ≡ x ∷ chunk =
        take-le (length (x ∷ chunk)) (x ∷ chunk) fits in
      let total : length (rest d) ≡ length (x ∷ chunk) + length (rest d₁) =
        ap length splits ∙ length-append (x ∷ chunk) (rest d₁) in
      let (d', s', run, finished, out, left) =
        later d₁ s₁ (size + length (x ∷ chunk)) (omega (arith, total)) (omega (arith, total)) in
      let small : ltb (size + length (x ∷ chunk)) (2 ^ 31) ≡ true =
        lt→ltb (size + length (x ∷ chunk)) (2 ^ 31) (omega (arith, total)) in
      let sum : size + length (x ∷ chunk) + length (rest d₁) ≡ size + length (rest d) =
        omega (arith, total) in
      (
        d',
        s',
        transfer-round fuel d s (pos size) (some (x ∷ chunk)) got
            ∙ rw (small) run
            ∙ ap (λ n. ok (d', s', pos n)) sum,
        finished,
        out
            ∙ ap (λ b. b ++ rest d₁) (placed ∙ ap (λ c. before s ++ c) all)
            ∙ append_assoc (before s) (x ∷ chunk) (rest d₁)
            ∙ ap (λ b. before s ++ b) (sym splits),
        left
            ∙ ap (drop (length (rest d₁))) kept
            ∙ drop-drop (length (x ∷ chunk)) (length (rest d₁)) (length (rest d)) (behind s) total,
      )

  -- As many rounds as bytes, and one more, are enough for the loop to end; then all bytes have been read,
  -- however they were cut into pieces, they stand in order at the offset, in place of as many bytes, and the
  -- count is their number, if it fits an int.
  transfer-Copies :
      (fuel : ℕ) (d : D) (s : S) (size : ℕ)
      → length (rest d) < fuel
      → size + length (rest d) < 2 ^ 31
      → Copies fuel d s size
  transfer-Copies zero d s size h bound = absurd (omega arith)
  transfer-Copies (suc fuel) d s size h bound =
      let (chunk, got, splits, over) = reads.next d 50 (omega arith) in
      round-Copies fuel d s size chunk (transfer-Copies fuel) h bound got splits over

-- A descriptor whose reads always fail, as that of a file that could not be opened, never lets the
-- loop end.
transfer_fails :
    {D S : Type 0} (source : Source D) (sink : Sink S)
    → ((d : D) → (source.read d 50).0 ≡ none)
    → (fuel : ℕ) (d : D) (s : S) (size : ℤ) (x : D × S × ℤ)
    → transfer source sink fuel d s size ≢ ok x
unfolding transfer ended
transfer_fails source sink fails zero d s size x run = cc
transfer_fails source sink fails (suc fuel) d s size x run =
    let run' = rw (fails d) at run in
    elim (Run-cases (add_size size none)) [
      | inl (size', e) ↦
          transfer_fails source sink fails fuel (source.read d 50).1 (sink.write s none).1 size' x
            (rw e at run')
      | inr (inl e) ↦ absurd (let run'' = rw e at run' in cc)
      | inr (inr e) ↦ absurd (let run'' = rw e at run' in cc)
    ]

-- The two loops one behind the other, where no call fails and no write is short, the client's connection gives the bytes
-- that the server has sent, none of them before, and the rounds allowed are more than the bytes of
-- the file: both loops end, and the client has stored the whole file of the server at its offset, in place
-- of as many bytes, and both count its bytes, if the number fits an int. The file may be cut into different pieces by the reads of the two.
pub file_arrives :
    {D S D' S' : Type 0} (file : Source D) (connection : Sink S) (stream : Source D')
    (store : Sink S') (rest : D → Bytes) (sent : S → Bytes) (arriving : D' → Bytes)
    (before behind : S' → Bytes) (connected : S → D')
    → Reads file rest
    → Writes connection sent nothing
    → IsWhole connection
    → Reads stream arriving
    → Writes store before behind
    → IsWhole store
    → ((s : S) → arriving (connected s) ≡ sent s)
    → (fuel : ℕ) (d : D) (s : S) (t : S') → length (rest d) < fuel
    → length (rest d) < 2 ^ 31
    → sent s ≡ []
    → (d₁ : D) × (s₁ : S) × (c₁ : D') × (t₁ : S') × (send_file file connection fuel d s
        ≡ ok (d₁, s₁, pos (length (rest d))))
      × (receive_file stream store fuel (connected s₁) t ≡ ok (c₁, t₁, pos (length (rest d))))
      × (before t₁ ≡ before t ++ rest d)
      × (behind t₁ ≡ drop (length (rest d)) (behind t))
unfolding send_file receive_file
file_arrives file connection stream store rest sent arriving before behind connected reads writes
      whole reads' writes' whole' delivers fuel d s t enough bound fresh =
    let (d₁, s₁, run, finished, out, none_left) =
      transfer-Copies file connection rest sent nothing reads writes whole fuel d s 0 enough
        (omega arith) in
    let all : arriving (connected s₁) ≡ rest d = delivers s₁ ∙ out ∙ ap (λ b. b ++ rest d) fresh in
    let (c₁, t₁, run', finished', out', left) =
      transfer-Copies stream store arriving before behind reads' writes' whole' fuel (connected s₁)
        t 0 (omega (arith, ap length all)) (omega (arith, ap length all)) in
    let size : 0 + length (rest d) ≡ length (rest d) = omega arith in
    let size' : 0 + length (arriving (connected s₁)) ≡ length (rest d) =
      omega (arith, ap length all) in
    (
      d₁,
      s₁,
      c₁,
      t₁,
      run ∙ ap (λ n. ok (d₁, s₁, pos n)) size,
      run' ∙ ap (λ n. ok (c₁, t₁, pos n)) size',
      out' ∙ ap (λ b. before t ++ b) all,
      left ∙ ap (λ b. drop (length b) (behind t)) all,
    )
