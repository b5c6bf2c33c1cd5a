-- ===== src/Exchange/Asked.antt =====
-- A request of the client in the buffer of the server.
use internet_applications.Base.{
  ℕ, ◌+◌, ◌%◌, ◌^◌, ◌<◌, ◌≡◌, ◌≢◌, refl, ◌∙◌, none, some, List, [], ◌∷◌, ◌++◌, Bytes, ok, get_elem?,
  length, length-append, length-take, take-all, ne→==, take, replicate, arith,
}
use internet_applications.Words.{htonl, htons, htonl-lt, htons-lt, bytes32, load32-bytes32}
use internet_applications.Protocol
use internet_applications.Protocol.{
  dhcpdiscover, dhcprequest, dhcpdecline, dhcprelease, dhcp_max_option_len, inaddr_any,
}
use internet_applications.Options.{get_dhcp_option}
use internet_applications.Options.Scan.{Tlv, encode, find}
use internet_applications.Options.Fill.{
  wrote, get_dhcp_option-wrote, get_dhcp_option-wrote_at, length-wrote,
}
use internet_applications.Packet.{Packet, IsPacket, pack, receive}
use internet_applications.Packet.Transfer.{receive-wrote}
use internet_applications.Reply.{load_value}
use internet_applications.Request.{request_header}
use internet_applications.Request.Written.{requested, requested-NoPad, length-requested}

module _ (state server ciaddr yiaddr xid : ℕ) (mac : Bytes) (six : length mac ≡ 6) where
  -- The options of a request; `ciaddr` is 0 where the client has no address.
  abbrev pub asked : List Tlv
  asked = requested state server ciaddr yiaddr

  -- The packet in a buffer that held `q`.
  unfoldable pub heard : Packet → Packet
  heard q = record (request_header state xid ciaddr mac) { options = (wrote asked q.options).0 }

  request_header-IsPacket : ciaddr < 2 ^ 32 → IsPacket (request_header state xid ciaddr mac)
  unfolding request_header
  request_header-IsPacket host = record {
    xid = htonl-lt xid;
    secs = htons-lt 0;
    flags = htons-lt _;
    ciaddr = host;
    yiaddr = htonl-lt inaddr_any;
    siaddr = htonl-lt inaddr_any;
    giaddr = htonl-lt inaddr_any;
    chaddr =
        omega (arith, length-append (take 6 mac) (replicate 10 0), length-take 6 mac (omega arith));
    sname = refl;
    fname = refl;
    magic_cookie = htonl-lt Protocol.dhcp_magic_cookie;
    options = refl;
  }

  pub heard-IsPacket : ciaddr < 2 ^ 32 → (q : Packet) → IsPacket q → IsPacket (heard q)
  unfolding heard
  heard-IsPacket host q h =
      let p = request_header-IsPacket host in
      record {
        xid = p.xid;
        secs = p.secs;
        flags = p.flags;
        ciaddr = p.ciaddr;
        yiaddr = p.yiaddr;
        siaddr = p.siaddr;
        giaddr = p.giaddr;
        chaddr = p.chaddr;
        sname = p.sname;
        fname = p.fname;
        magic_cookie = p.magic_cookie;
        options =
            length-wrote asked q.options
              (omega (arith, h.options, length-requested state server ciaddr yiaddr))
            ∙ h.options;
      }

  -- What is sent, and what arrives.
  unfoldable pub asking : Bytes
  asking =
      let p = request_header state xid ciaddr mac in
      take ((240 + length (encode asked)) % 2 ^ 16)
        (pack (record p { options = (wrote asked p.options).0 }))

  pub receive-asking : ciaddr < 2 ^ 32 → (q : Packet) → IsPacket q → receive asking q ≡ heard q
  unfolding heard asking
  receive-asking host q h =
      let p = request_header state xid ciaddr mac in
      let small : (240 + length (encode asked)) % 2 ^ 16 ≡ 240 + length (encode asked) =
        omega (arith, length-requested state server ciaddr yiaddr) in
      rw small (
        receive-wrote p q asked p.options (request_header-IsPacket host) h
          (omega (arith, length-requested state server ciaddr yiaddr)))

  -- The message type is the first option.
  pub heard_type :
      (q : Packet)
      → get_dhcp_option (heard q).options Protocol.option_dhcp_message_type none ≡ ok (1, some 2)
  unfolding heard
  heard_type q =
      get_dhcp_option-wrote_at asked q.options (state ∷ []) Protocol.option_dhcp_message_type none
        (omega arith) (requested-NoPad state server ciaddr yiaddr) refl

  pub heard_type_byte : (q : Packet) → get_elem? (heard q).options 2 ≡ some state
  unfolding heard wrote
  heard_type_byte q = refl

  -- An option that holds a word.
  pub heard_word :
      (q : Packet) (t w : ℕ)
      → t ≢ 0
      → find t asked ≡ some (bytes32 w)
      → w < 2 ^ 32
      → (p : ℕ) × (get_dhcp_option (heard q).options t none ≡ ok (4, some p))
        × (load_value (heard q).options (some p) ≡ ok w)
  unfolding heard bytes32 load_value
  heard_word q t w ne hit short =
      let (p, got, bytes) =
        get_dhcp_option-wrote asked q.options (bytes32 w) t none ne
          (requested-NoPad state server ciaddr yiaddr) hit in
      (p, got, load32-bytes32 (wrote asked q.options).0 p w short bytes)

  pub heard_opcode : (q : Packet) → (heard q).opcode ≡ Protocol.bootp_message_type_request
  unfolding heard request_header
  heard_opcode q = refl

  pub heard_ciaddr : (q : Packet) → (heard q).ciaddr ≡ ciaddr
  unfolding heard request_header htonl
  heard_ciaddr q = refl

  -- Neither of the two requests of a client without an address asks for a unicast answer.
  pub heard_broadcast :
      (q : Packet)
      → state ≢ dhcprelease
      → state ≢ dhcpdecline
      → (heard q).flags ≢ htonl Protocol.bootp_flags_unicast
  unfolding heard request_header htonl htons
  heard_broadcast q ne ne' =
      rw (ne→== state dhcprelease ne, ne→== state dhcpdecline ne') (omega arith)

  pub heard_xid : (q : Packet) → (heard q).xid ≡ htonl xid
  unfolding heard request_header
  heard_xid q = refl

  pub heard_padded : (q : Packet) → (heard q).chaddr ≡ mac ++ replicate 10 0
  unfolding heard request_header
  heard_padded q = rw (take-all 6 mac six) refl
