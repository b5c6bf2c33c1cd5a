-- ===== src/Client/Await.antt =====
-- Which datagram the loop around `recvfrom` accepts.
use internet_applications.Base.{
  ℕ, ◌≡◌, ◌∙◌, ap, true, false, Bool-cases, inl, inr, Option, none, some, arith, List, [], ◌∷◌,
  ◌++◌, Bytes,
}
use internet_applications.Packet.{Packet, receive}
use internet_applications.Client.{is_answer, await_reply}

-- The datagrams `ds` do not answer, and leave `old` as `new`.
pub data Skips (xid : ℕ) : List (Option Bytes) → (old new : Packet) → Type 0 where
  skip_none : (p : Packet) → Skips xid [] p p
  skip_one :
      (d : Bytes) (ds : List (Option Bytes)) (p q : Packet)
      → is_answer xid (receive d p) ≡ false
      → Skips xid ds (receive d p) q
      → Skips xid (some d ∷ ds) p q

-- What the loop returns is the first datagram that answers, received over the ones it skipped.
pub record Accepted (xid : ℕ) (inbox : List (Option Bytes)) (buffer p : Packet)
    (rest : List (Option Bytes)) : Type 0 where
  pub skipped : List (Option Bytes)
  pub datagram : Bytes
  pub old : Packet
  pub skips : Skips xid skipped buffer old
  pub splits : inbox ≡ skipped ++ some datagram ∷ rest
  pub is_received : p ≡ receive datagram old
  pub answers : is_answer xid p ≡ true

-- Whenever the loop returns a packet, it is the first of the inbox that is a reply with the xid of
-- the request; the datagrams before it are used up, the ones behind it stay.
pub await_reply-Accepted :
    (xid : ℕ) (inbox : List (Option Bytes)) (buffer p : Packet) (rest : List (Option Bytes))
    → await_reply xid inbox buffer ≡ (some p, rest)
    → Accepted xid inbox buffer p rest
unfolding await_reply
await_reply-Accepted xid [] buffer p rest h = absurd (cc)
await_reply-Accepted xid (none ∷ inbox) buffer p rest h = absurd (cc)
await_reply-Accepted xid (some d ∷ inbox) buffer p rest h =
    elim (Bool-cases (is_answer xid (receive d buffer))) [
      | inl hit ↦
          let accepted : p ≡ receive d buffer = ground arith in
          let rests : inbox ≡ rest = ground arith in
          record {
            skipped = [];
            datagram = d;
            old = buffer;
            skips = skip_none buffer;
            splits = ap (λ x. some d ∷ x) rests;
            is_received = accepted;
            answers = ap (is_answer xid) accepted ∙ hit;
          }
      | inr miss ↦
          let later = await_reply-Accepted xid inbox (receive d buffer) p rest (ground arith) in
          record {
            skipped = some d ∷ later.skipped;
            datagram = later.datagram;
            old = later.old;
            skips = skip_one d later.skipped buffer later.old miss later.skips;
            splits = ap (λ x. some d ∷ x) later.splits;
            is_received = later.is_received;
            answers = later.answers;
          }
    ]
