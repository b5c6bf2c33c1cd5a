-- ===== src/Packet/Transfer.antt =====
-- A packet on its way from one buffer to another: the sender sends the fields before the options and
-- the options it has written, the receiver keeps what its buffer held behind them.
use internet_applications.Base.{
  ◌+◌, ◌≤◌, ◌≡◌, sym, ap, ◌∙◌, List, [], ◌++◌, append_assoc, Bytes, length, length-append, take,
  drop, take-prefix, take-le, drop-append_right, arith,
}
use internet_applications.Words.{bytes16, bytes32}
use internet_applications.Protocol.{dhcp_fixed_non_udp, dhcp_max_option_len, sizeof_dhcp}
use internet_applications.Options.Scan.{Tlv, encode}
use internet_applications.Options.Fill.{wrote, length-wrote}
use internet_applications.Packet.{Packet, IsPacket, pack, receive}
use internet_applications.Packet.Layout.{unpack-pack}

-- The 240 bytes before the options.
abbrev header : Packet → Bytes
header p = pack (record p { options = [] })

pack-header :
    (p : Packet) (options : Bytes) → pack (record p { options = options }) ≡ header p ++ options
unfolding pack bytes16 bytes32
pack-header p options = simp append_assoc

length-header : (p : Packet) → IsPacket p → length (header p) ≡ dhcp_fixed_non_udp
unfolding pack bytes16 bytes32
length-header p h =
    let tail = bytes32 p.magic_cookie ++ [] in
    omega (
      arith,
      length-append p.chaddr (p.sname ++ (p.fname ++ tail)),
      length-append p.sname (p.fname ++ tail),
      length-append p.fname tail,
      h.chaddr,
      h.sname,
      h.fname,
    )

pub length-pack : (p : Packet) → IsPacket p → length (pack p) ≡ sizeof_dhcp
length-pack p h =
    ap length (pack-header p p.options)
    ∙ omega (arith, length-append (header p) p.options, length-header p h, h.options)

-- The options that were written are all that crosses, so the receiver sees them written over what its
-- own buffer held.
pub receive-wrote :
    (p q : Packet) (os : List Tlv) (old : Bytes)
    → IsPacket p
    → IsPacket q
    → length (encode os) ≤ dhcp_max_option_len
    → receive
        (take
          (dhcp_fixed_non_udp + length (encode os))
          (pack (record p { options = (wrote os old).0 })))
        q
      ≡ record p { options = (wrote os q.options).0 }
unfolding receive wrote
receive-wrote p q os old hp hq fits =
    let n = length (encode os) in
    let sent : take (dhcp_fixed_non_udp + n) (pack (record p { options = encode os ++ drop n old }))
        ≡ header p ++ encode os =
      rw (pack-header p (encode os ++ drop n old)) (
        rw (← append_assoc (header p) (encode os) (drop n old)) (
          take-prefix (dhcp_fixed_non_udp + n) (header p ++ encode os) (drop n old)
            (omega (arith, length-append (header p) (encode os), length-header p hp)))) in
    let size : length (header p ++ encode os) ≡ dhcp_fixed_non_udp + n =
      omega (arith, length-append (header p) (encode os), length-header p hp) in
    let cut : take sizeof_dhcp (header p ++ encode os) ≡ header p ++ encode os =
      take-le sizeof_dhcp (header p ++ encode os) (omega (arith, size)) in
    let kept : drop (dhcp_fixed_non_udp + n) (pack q) ≡ drop n q.options =
      ap (drop (dhcp_fixed_non_udp + n)) (pack-header q q.options)
      ∙ drop-append_right (header q) q.options n (dhcp_fixed_non_udp + n)
          (omega (arith, length-header q hq)) in
    let whole : (header p ++ encode os) ++ drop n q.options
        ≡ pack (record p { options = encode os ++ drop n q.options }) =
      append_assoc (header p) (encode os) (drop n q.options)
      ∙ sym (pack-header p (encode os ++ drop n q.options)) in
    let same : IsPacket (record p { options = encode os ++ drop n q.options }) = record {
      xid = hp.xid;
      secs = hp.secs;
      flags = hp.flags;
      ciaddr = hp.ciaddr;
      yiaddr = hp.yiaddr;
      siaddr = hp.siaddr;
      giaddr = hp.giaddr;
      chaddr = hp.chaddr;
      sname = hp.sname;
      fname = hp.fname;
      magic_cookie = hp.magic_cookie;
      options = length-wrote os q.options (omega (arith, hq.options)) ∙ hq.options;
    } in
    rw (sent, cut, size, kept, whole)
      (unpack-pack (record p { options = encode os ++ drop n q.options }) same)
