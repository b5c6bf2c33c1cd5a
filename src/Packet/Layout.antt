-- ===== src/Packet/Layout.antt =====
-- Reading a packet back from its bytes.
use internet_applications.Base.{
  ℕ, ◌+◌, ◌≡◌, refl, ap, ◌∙◌, ◌++◌, Bytes, length, take, drop, get_or, get_or-append_right,
  take-prefix, take-all, drop-append_right, arith,
}
use internet_applications.Words.{bytes16, bytes32, word32-bytes32, word32-bytes16}
use internet_applications.Packet.{Packet, pack, unpack, IsPacket, read32}

-- The bytes behind the first three arrays.
module _ (a b c rest : Bytes) (la : length a ≡ 16) (lb : length b ≡ 64) (lc : length c ≡ 128) where
  skip : (i j : ℕ) → j ≡ 208 + i → drop j (a ++ (b ++ (c ++ rest))) ≡ drop i rest
  skip i j e =
      drop-append_right a (b ++ (c ++ rest)) (192 + i) j (omega arith)
      ∙ drop-append_right b (c ++ rest) (128 + i) (192 + i) (omega arith)
      ∙ drop-append_right c rest i (128 + i) (omega arith)

  at : (i j : ℕ) → j ≡ 208 + i → get_or (a ++ (b ++ (c ++ rest))) j 0 ≡ get_or rest i 0
  at i j e =
      get_or-append_right a (b ++ (c ++ rest)) (192 + i) j 0 (omega arith)
      ∙ get_or-append_right b (c ++ rest) (128 + i) (192 + i) 0 (omega arith)
      ∙ get_or-append_right c rest i (128 + i) 0 (omega arith)

  second : take 64 (drop 16 (a ++ (b ++ (c ++ rest)))) ≡ b
  second =
      ap (take 64) (drop-append_right a (b ++ (c ++ rest)) 0 16 (omega arith))
      ∙ take-prefix 64 b (c ++ rest) lb

  third : take 128 (drop 80 (a ++ (b ++ (c ++ rest)))) ≡ c
  third =
      ap (take 128) (
        drop-append_right a (b ++ (c ++ rest)) 64 80 (omega arith)
        ∙ drop-append_right b (c ++ rest) 0 64 (omega arith))
      ∙ take-prefix 128 c rest lc

-- The bytes of a packet whose fields are in range and whose arrays have their sizes are read back as
-- the same packet.
pub unpack-pack : (p : Packet) → IsPacket p → unpack (pack p) ≡ p
unfolding unpack pack bytes32 bytes16
unpack-pack p h =
    let tail = bytes32 p.magic_cookie ++ p.options in
    let far = at p.chaddr p.sname p.fname tail h.chaddr h.sname h.fname in
    let cookie : read32 (pack p) 236 ≡ p.magic_cookie =
      rw (far 0 208 refl, far 1 209 refl, far 2 210 refl, far 3 211 refl)
        (word32-bytes32 p.magic_cookie h.magic_cookie) in
    let opts : take 1232 (drop 240 (pack p)) ≡ p.options =
      ap (take 1232) (skip p.chaddr p.sname p.fname tail h.chaddr h.sname h.fname 4 212 refl)
      ∙ take-all 1232 p.options h.options in
    λ i. record {
      opcode = p.opcode;
      htype = p.htype;
      hlen = p.hlen;
      hops = p.hops;
      xid = word32-bytes32 p.xid h.xid i;
      secs = word32-bytes16 p.secs h.secs i;
      flags = word32-bytes16 p.flags h.flags i;
      ciaddr = word32-bytes32 p.ciaddr h.ciaddr i;
      yiaddr = word32-bytes32 p.yiaddr h.yiaddr i;
      siaddr = word32-bytes32 p.siaddr h.siaddr i;
      giaddr = word32-bytes32 p.giaddr h.giaddr i;
      chaddr =
          take-prefix 16 p.chaddr (p.sname ++ (p.fname ++ (bytes32 p.magic_cookie ++ p.options)))
            h.chaddr i;
      sname =
          second p.chaddr p.sname p.fname (bytes32 p.magic_cookie ++ p.options) h.chaddr h.sname
            h.fname i;
      fname =
          third p.chaddr p.sname p.fname (bytes32 p.magic_cookie ++ p.options) h.chaddr h.sname
            h.fname i;
      magic_cookie = cookie i;
      options = opts i;
    }
