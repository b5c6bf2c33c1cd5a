-- ===== src/SimpleClient/Input/Accepted.antt =====
-- Which frames the client takes for an offer, and what it makes of them.
use internet_applications.Base.{
  ℕ, zero, suc, ◌+◌, ◌*◌, ◌/◌, ◌%◌, ◌^◌, ◌≤◌, ◌<◌, ◌≡◌, refl, ap, Bool, true, false, not, ◌&&◌,
  some, List, [], ◌∷◌, ◌++◌, Bytes, ok, ◌==◌, if◌then◌else◌, get_elem?, length, arith, le→leb,
}
use internet_applications.Words.{
  AreBytes, at, at-lt, four-same, ntohl, htonl, htons, load32, word32,
}
use internet_applications.SimpleClient.Input.{
  Capture, Frame, print_packet, load16, dhcp_input, udp_input, ip_input, ether_input, listen,
  octets, main,
}
use internet_applications.SimpleClient.{load_bytes}
use internet_applications.SimpleClient.Frame.{dhcp_discovery-frame}

-- An IP frame that carries UDP from port 67, with a packet of the opcode 2, whatever its type.
abbrev pub accepts : Bytes → Bool
accepts f =
    (at f 12 == 8)
    && (at f 13 == 0)
    && (at f 23 == 17)
    && (at f 34 == 0)
    && (at f 35 == 67)
    && (at f 42 == 2)

-- The address of the packet, in the order of the network.
abbrev pub offered : Bytes → ℕ
offered f = at f 58 * 2 ^ 24 + at f 59 * 2 ^ 16 + at f 60 * 2 ^ 8 + at f 61

get_elem?-at : (f : Bytes) (i : ℕ) → i < length f → get_elem? f i ≡ some (at f i)
get_elem?-at [] i h = absurd (omega arith)
get_elem?-at (x ∷ f) zero h = refl
get_elem?-at (x ∷ f) (suc i) h = get_elem?-at f i (omega arith)

htons-test :
    (a b c : ℕ)
    → a < 256
    → b < 256
    → c < 2 ^ 16
    → (htons (a + b * 256) == c) ≡ (a == c / 256) && (b == c % 256)
unfolding htons
htons-test a b c ha hb hc = ground arith

ntohl-bytes :
    (a b c d : ℕ)
    → a < 256
    → b < 256
    → c < 256
    → d < 256
    → ntohl (word32 a b c d) ≡ a * 2 ^ 24 + b * 2 ^ 16 + c * 2 ^ 8 + d
unfolding htonl word32
ntohl-bytes a b c d ha hb hc hd = omega arith

-- The address that is printed is the one on the wire.
octets-offered :
    (f : Bytes) → AreBytes f → octets (offered f) ≡ at f 58 ∷ at f 59 ∷ at f 60 ∷ at f 61 ∷ []
unfolding octets
octets-offered f h =
    let a = at-lt f 58 h in
    let b = at-lt f 59 h in
    let c = at-lt f 60 h in
    let d = at-lt f 61 h in four-same (omega arith) (omega arith) (omega arith) (omega arith)

-- The tests one inside the other, and all at once.
tests-nested :
    (a b c d e g : Bool) (s t : Capture)
    → (if a && b
        then (if c then (if d && e then (if not g then ok s else ok t) else ok s) else ok s)
        else ok s)
      ≡ ok (if a && b && c && d && e && g then t else s)
tests-nested false b c d e g s t = refl
tests-nested true false c d e g s t = refl
tests-nested true true false d e g s t = refl
tests-nested true true true false e g s t = refl
tests-nested true true true true false g s t = refl
tests-nested true true true true true false s t = refl
tests-nested true true true true true true s t = refl

-- The fields that are read are 16-bit and 32-bit words.
pub record Fields (f : Bytes) : Type 0 where
  pub kind_0 : at f 12 < 256
  pub kind_1 : at f 13 < 256
  pub port_0 : at f 34 < 256
  pub port_1 : at f 35 < 256
  pub addr_0 : at f 58 < 256
  pub addr_1 : at f 59 < 256
  pub addr_2 : at f 60 < 256
  pub addr_3 : at f 61 < 256

pub ether_input-Fields :
    (frame : Frame) (s : Capture)
    → let f = frame.captured in
      Fields f
      → 62 ≤ length f
      → frame.len ≤ length f
      → ether_input frame s
        ≡ ok (if accepts f then record { ip = offered f; stopped = true } else s)
unfolding ether_input print_packet load_bytes ip_input udp_input dhcp_input load16 load32
ether_input-Fields frame s h long complete =
    let f = frame.captured in
    let byte : (i : ℕ) → i < 62 → get_elem? f i ≡ some (at f i) =
      λ i small. get_elem?-at f i (omega arith) in
    rw
      (
        le→leb frame.len (length f) complete,
        byte 12 (omega arith),
        byte 13 (omega arith),
        byte 23 (omega arith),
        byte 34 (omega arith),
        byte 35 (omega arith),
        byte 42 (omega arith),
        byte 58 (omega arith),
        byte 59 (omega arith),
        byte 60 (omega arith),
        byte 61 (omega arith),
        htons-test (at f 12) (at f 13) 0x800 h.kind_0 h.kind_1 (omega arith),
        htons-test (at f 34) (at f 35) 67 h.port_0 h.port_1 (omega arith),
        ntohl-bytes (at f 58) (at f 59) (at f 60) (at f 61) h.addr_0 h.addr_1 h.addr_2 h.addr_3,
      )
      (tests-nested (at f 12 == 8) (at f 13 == 0) (at f 23 == 17) (at f 34 == 0) (at f 35 == 67)
        (at f 42 == 2) s (record { ip = offered f; stopped = true }))

-- A frame that was captured whole and reaches to the address of its packet is never read behind its end: one
-- that is accepted sets the address and stops the loop, any other changes nothing.
ether_input-accepts :
    (frame : Frame) (s : Capture)
    → let f = frame.captured in
      AreBytes f
      → 62 ≤ length f
      → frame.len ≤ length f
      → ether_input frame s
        ≡ ok (if accepts f then record { ip = offered f; stopped = true } else s)
ether_input-accepts frame s h long complete =
    let f = frame.captured in
    ether_input-Fields frame s
      (record {
        kind_0 = at-lt f 12 h;
        kind_1 = at-lt f 13 h;
        port_0 = at-lt f 34 h;
        port_1 = at-lt f 35 h;
        addr_0 = at-lt f 58 h;
        addr_1 = at-lt f 59 h;
        addr_2 = at-lt f 60 h;
        addr_3 = at-lt f 61 h;
      })
      long complete

-- Before the loop is stopped.
abbrev waiting : ℕ → Capture
waiting ip = record { ip = ip; stopped = false }

-- A frame of bytes that was captured whole, and that reaches to the address of its packet.
pub record Readable (frame : Frame) : Type 0 where
  pub bytes : AreBytes frame.captured
  pub long : 62 ≤ length frame.captured
  pub complete : frame.len ≤ length frame.captured

-- All frames are long enough, and none is taken for an offer.
abbrev pub Ignored : List Frame → Type 0
Ignored [] = Unit
Ignored (f ∷ fs) = (Readable f × (accepts f.captured ≡ false)) × Ignored fs

-- The loop passes over the frames that are not taken for an offer, whatever they carry, and ends at the
-- first one that is: the address is the one of that frame.
listen-first :
    (fs gs : List Frame) (f : Frame) (ip : ℕ)
    → Ignored fs
    → Readable f
    → accepts f.captured ≡ true
    → listen (fs ++ f ∷ gs) (waiting ip) ≡ ok (record { ip = offered f.captured; stopped = true })
unfolding listen
listen-first [] gs f ip ignored h hit =
    rw (ether_input-accepts f (waiting ip) h.bytes h.long h.complete, hit) refl
listen-first (g ∷ fs) gs f ip ignored h hit =
    let (r, miss) = ignored.0 in
    rw (ether_input-accepts g (waiting ip) r.bytes r.long r.complete, miss)
      (listen-first fs gs f ip ignored.1 h hit)

-- After the discover the client passes over the frames that are not taken for an offer, whatever
-- they carry, and prints the four bytes of the address that the first other frame offers, as they
-- stand on the wire. That frame is any UDP datagram from port 67 with the opcode of a reply:
-- neither the type of the message nor its xid is looked at. All frames were captured whole, reach to the
-- end of that address and hold bytes, the array for the discover has at least 300 bytes, and sixteen bytes
-- behind the pointer to the hardware address are readable.
pub main_prints :
    (packet mac : Bytes) (fs gs : List Frame) (frame : Frame)
    → 300 ≤ length packet
    → 16 ≤ length mac
    → Ignored fs
    → Readable frame
    → accepts frame.captured ≡ true
    → let f = frame.captured in
      main packet mac (fs ++ frame ∷ gs) ≡ ok (at f 58 ∷ at f 59 ∷ at f 60 ∷ at f 61 ∷ [])
unfolding main
main_prints packet mac fs gs frame room readable ignored h hit =
    rw ((dhcp_discovery-frame packet mac room readable).0, listen-first fs gs frame 0 ignored h hit)
      (ap ok (octets-offered frame.captured h.bytes))
