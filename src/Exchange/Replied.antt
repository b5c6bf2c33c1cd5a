-- ===== src/Exchange/Replied.antt =====
-- The replies of the server in its own buffer and in the one of the client.
use internet_applications.Base.{ℕ, ◌^◌, ◌<◌, ◌≡◌, refl, ◌∙◌, Bytes, length, take, arith}
use internet_applications.Words.{htonl, bytes32}
use internet_applications.Protocol
use internet_applications.Protocol.{
  dhcpdiscover, dhcprequest, dhcpoffer, dhcpack, dhcp_server_ip_address, inaddr_any,
  inaddr_broadcast, ip_address_pool_amount,
}
use internet_applications.Packet.{Packet, IsPacket, pack, receive}
use internet_applications.Packet.Transfer.{receive-wrote}
use internet_applications.Options.Fill.{wrote, length-wrote}
use internet_applications.Reply.Written.{answer_with_times}
use internet_applications.Exchange.Asked.{heard, heard_xid}
use internet_applications.Exchange.Acquiring.{here, Answers}

-- A reply with the times of a lease, in the buffer of the server and in the one of the client.
abbrev pub replied : (state y : ℕ) → Packet → Packet
replied state y q = record q {
  opcode = Protocol.bootp_message_type_reply;
  yiaddr = y;
  giaddr = here;
  options = (wrote (answer_with_times state) q.options).0;
}

module _ (q : Packet) (h : IsPacket q) (state y : ℕ) (word : y < 2 ^ 32) where
  pub replied-IsPacket : IsPacket (replied state y q)
  unfolding htonl bytes32
  replied-IsPacket = record {
    xid = h.xid;
    secs = h.secs;
    flags = h.flags;
    ciaddr = h.ciaddr;
    yiaddr = word;
    siaddr = h.siaddr;
    giaddr = omega arith;
    chaddr = h.chaddr;
    sname = h.sname;
    fname = h.fname;
    magic_cookie = h.magic_cookie;
    options =
        length-wrote (answer_with_times state) q.options (omega (arith, h.options)) ∙ h.options;
  }

  pub receive-replied :
      (buffer : Packet)
      → IsPacket buffer
      → receive (take 300 (pack (replied state y q))) buffer ≡ record (replied state y q) {
        options = (wrote (answer_with_times state) buffer.options).0;
      }
  unfolding bytes32
  receive-replied buffer hb =
      receive-wrote (replied state y q) buffer (answer_with_times state) q.options replied-IsPacket
        hb (omega arith)

-- A reply to a request, as the client takes it.
pub replied-Answers :
    (xid c_server c_ciaddr c_yiaddr kind state y : ℕ) (mac : Bytes) (six : length mac ≡ 6)
    (q buffer : Packet)
    → Answers xid state buffer.options
        (record (replied state y (heard kind c_server c_ciaddr c_yiaddr xid mac six q)) {
          options = (wrote (answer_with_times state) buffer.options).0;
        })
replied-Answers xid c_server c_ciaddr c_yiaddr kind state y mac six q buffer = record {
  opcode = refl;
  xid_same = heard_xid kind c_server c_ciaddr c_yiaddr xid mac six q;
  options = refl;
}
