-- ===== src/Packet.antt =====
-- `struct dhcp_t` of dhcp-project.h and its bytes in memory, which are the bytes on the wire.
pub mod Layout
pub mod Transfer
use internet_applications.Base.{ℕ, ◌+◌, ◌<◌, ◌≡◌, ◌∷◌, ◌++◌, Bytes, length, get_or, take, drop, ◌^◌}
use internet_applications.Words.{bytes16, bytes32, word32}
use internet_applications.Protocol.{sizeof_dhcp, dhcp_max_option_len}

-- A multi-byte field is the number that the host reads, so it holds its value in network order.
pub record Packet : Type 0 where
  pub opcode : ℕ
  pub htype : ℕ
  pub hlen : ℕ
  pub hops : ℕ
  pub xid : ℕ
  pub secs : ℕ
  pub flags : ℕ
  pub ciaddr : ℕ
  pub yiaddr : ℕ
  pub siaddr : ℕ
  pub giaddr : ℕ
  pub chaddr : Bytes
  pub sname : Bytes
  pub fname : Bytes
  pub magic_cookie : ℕ
  pub options : Bytes

unfoldable pub pack : Packet → Bytes
pack p =
    p.opcode ∷ p.htype ∷ p.hlen ∷ p.hops ∷ bytes32 p.xid
    ++ (bytes16 p.secs
        ++ (bytes16 p.flags
            ++ (bytes32 p.ciaddr
                ++ (bytes32 p.yiaddr
                    ++ (bytes32 p.siaddr
                        ++ (bytes32 p.giaddr
                            ++ (p.chaddr
                                ++ (p.sname
                                    ++ (p.fname ++ (bytes32 p.magic_cookie ++ p.options))))))))))

abbrev read8 : Bytes → ℕ → ℕ
read8 b i = get_or b i 0

abbrev read16 : Bytes → ℕ → ℕ
read16 b i = word32 (read8 b i) (read8 b (i + 1)) 0 0

abbrev read32 : Bytes → ℕ → ℕ
read32 b i = word32 (read8 b i) (read8 b (i + 1)) (read8 b (i + 2)) (read8 b (i + 3))

-- The same bytes read as the structure.
unfoldable pub unpack : Bytes → Packet
unpack b = record {
  opcode = read8 b 0;
  htype = read8 b 1;
  hlen = read8 b 2;
  hops = read8 b 3;
  xid = read32 b 4;
  secs = read16 b 8;
  flags = read16 b 10;
  ciaddr = read32 b 12;
  yiaddr = read32 b 16;
  siaddr = read32 b 20;
  giaddr = read32 b 24;
  chaddr = take 16 (drop 28 b);
  sname = take 64 (drop 44 b);
  fname = take 128 (drop 108 b);
  magic_cookie = read32 b 236;
  options = take dhcp_max_option_len (drop 240 b);
}

-- `recvfrom` into the structure: the datagram, cut to the structure's size, replaces the first
-- bytes, and what lies behind stays.
unfoldable pub receive : Bytes → Packet → Packet
receive datagram p = let d = take sizeof_dhcp datagram in unpack (d ++ drop (length d) (pack p))

-- The fields are in range and the arrays have their sizes.
pub record IsPacket (p : Packet) : Type 0 where
  pub xid : p.xid < 2 ^ 32
  pub secs : p.secs < 2 ^ 16
  pub flags : p.flags < 2 ^ 16
  pub ciaddr : p.ciaddr < 2 ^ 32
  pub yiaddr : p.yiaddr < 2 ^ 32
  pub siaddr : p.siaddr < 2 ^ 32
  pub giaddr : p.giaddr < 2 ^ 32
  pub chaddr : length p.chaddr ≡ 16
  pub sname : length p.sname ≡ 64
  pub fname : length p.fname ≡ 128
  pub magic_cookie : p.magic_cookie < 2 ^ 32
  pub options : length p.options ≡ dhcp_max_option_len
