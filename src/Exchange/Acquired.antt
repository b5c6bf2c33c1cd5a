-- ===== src/Exchange/Acquired.antt =====
-- The two programs in one exchange, from the client's first request to the lease in the server's table.
use internet_applications.Base.{
  ℕ, arith, ◌+◌, ◌^◌, ◌≤◌, ◌<◌, ◌≡◌, refl, ap, sym, ◌∙◌, Option, none, some, List, ◌∷◌, Bytes, ok,
  ==-refl, pos, length, take, replicate, ◌++◌,
}
use mathlib.Core.Path.{subst}
use internet_applications.Words.{htonl, ntohl, htonl-htonl}
use internet_applications.Protocol.{
  dhcpdiscover, dhcprequest, dhcpoffer, dhcpack, inaddr_broadcast, hardware_address_length,
  ip_address_pool_amount,
}
use internet_applications.Packet.{Packet, IsPacket, pack}
use internet_applications.Options.Fill.{wrote}
use internet_applications.Lease.{Lease, Leases, add_lease}
use internet_applications.Lease.Table.{lookup, find_mac, add_lease-num}
use internet_applications.Lease.Lookup.{lookup-add_lease, added}
use internet_applications.Lease.Allocate.{InRange, Covers}
use internet_applications.Lease.Check.{IsFree}
use internet_applications.Reply.{Server, Env, change_socket_setup}
use internet_applications.Reply.Written.{answer_with_times}
use internet_applications.Server
use internet_applications.Server.{round, reply}
use internet_applications.Server.Pool.{IsPooled, add_lease-IsPooled}
use internet_applications.Client.{Device, Client, get_ip_address, dhcp_discover}
use internet_applications.Exchange.Asked.{asking, heard, heard-IsPacket, heard_padded}
use internet_applications.Exchange.Arrived.{arrived}
use internet_applications.Exchange.Served.{asks_for, offering, round-Offers, round_grants}
use internet_applications.Exchange.Replied.{
  replied, replied-IsPacket, receive-replied, replied-Answers,
}
use internet_applications.Exchange.Acquiring.{
  here, discovering, discovery, request, leased, dhcp_discover_answered,
}

-- The server after a reply with the packet `p`, and what it sends.
abbrev after : (state y : ℕ) → Leases → Server → Server
after state y t s = record s { leases = t; dhcp_recv = replied state y s.dhcp_recv }

abbrev broadcast : Packet → Server.Sent
broadcast p = record { to_addr = htonl inaddr_broadcast; payload = take 300 (pack p) }

-- What the two programs do, when the client's broadcasts reach the server and the replies the client.
pub record Acquired {K : Type 0} (e₁ e₂ : Env) (s : Server) (dev : Device K) (c : Client K)
    (mac : Bytes) (six : length mac ≡ 6) (offered acked : Packet) (rest : List (Option Bytes))
    : Type 0 where
  pub s₁ : Server
  pub s₂ : Server
  pub offer : Server.Sent
  pub ack : Server.Sent
  pub address : ℕ
  pub packet : Packet
  pub lease : Lease
  pub offers : round e₁ (some (discovery c mac six)) s ≡ ok (s₁, some offer)
  pub grants : round e₂ (some (request c mac six (htonl address))) s₁ ≡ ok (s₂, some ack)
  pub acquires :
      dhcp_discover dev offered acked
        (record c { inbox = some offer.payload ∷ some ack.payload ∷ rest })
      ≡ ok (some ((pos 0, some packet), leased c mac six (htonl address) rest))
  pub pooled : InRange address
  pub granted : packet.yiaddr ≡ htonl address
  pub options : packet.options ≡ (wrote (answer_with_times dhcpack) acked.options).0
  pub recorded : lookup address s₂.leases.lease_head ≡ some lease
  pub stamped : lease.time_stamp ≡ e₂.stamp_time
  pub holder :
      lookup address s.leases.lease_head ≡ none
      → lease.chaddr ≡ take hardware_address_length (mac ++ replicate 10 0)
  pub free : IsFree e₁.check_time s.leases address (mac ++ replicate 10 0)
  pub table : IsPooled s₂.leases
  pub grown : s₂.leases.num_of_lease ≤ s.leases.num_of_lease + 1
  pub buffer : IsPacket s₂.dhcp_recv

module _ (e₁ e₂ : Env) (s : Server) (h : IsPacket s.dhcp_recv) (mac : Bytes) (six : length mac ≡ 6)
    (c_server c_yiaddr xid : ℕ) (word : c_yiaddr < 2 ^ 32) (pool : IsPooled s.leases)
    (covers : Covers e₁.random)
    (room : find_mac (mac ++ replicate 10 0) s.leases.lease_head ≡ none
      → s.leases.num_of_lease < ip_address_pool_amount) where
  abbrev first : Server
  first = asks_for e₁ s h c_server c_yiaddr xid mac six word dhcpdiscover

  -- The offer, and what may be granted from then on.
  offered_round :
      (t : Leases) × (y : ℕ) × (round e₁
          (some (asking dhcpdiscover c_server 0 c_yiaddr xid mac six))
          s
        ≡ ok (reply (after dhcpoffer y t first, 300)))
      × (y < 2 ^ 32)
      × ((later : ℕ) → e₁.check_time ≤ later → IsFree later t (ntohl y) (mac ++ replicate 10 0))
      × IsFree e₁.check_time s.leases (ntohl y) (mac ++ replicate 10 0)
      × IsPooled t
      × (t.num_of_lease ≡ s.leases.num_of_lease)
      × ((b : ℕ) → lookup b s.leases.lease_head ≡ none → lookup b t.lease_head ≡ none)
  unfolding change_socket_setup
  offered_round =
      let padded = heard_padded dhcpdiscover c_server 0 c_yiaddr xid mac six s.dhcp_recv in
      let (u, run, offers) =
        round-Offers e₁ s h c_server c_yiaddr xid mac six word pool covers
          (λ unknown. room (ap (λ m. find_mac m s.leases.lease_head) (sym padded) ∙ unknown)) in
      (
        u.leases,
        u.dhcp_recv.yiaddr,
        run
            ∙ ap (λ v. ok (reply (offering e₁ s h c_server c_yiaddr xid mac six word v, 300)))
                offers.same,
        offers.word,
        λ later after.
            subst (IsFree later u.leases (ntohl u.dhcp_recv.yiaddr)) padded
              (offers.free later after),
        subst (IsFree e₁.check_time s.leases (ntohl u.dhcp_recv.yiaddr)) padded offers.before,
        offers.leases,
        offers.count,
        offers.still,
      )

  -- The acknowledgement of the address that was offered.
  acked_round :
      (t : Leases) (y : ℕ)
      → y < 2 ^ 32
      → IsFree e₂.check_time t (ntohl y) (mac ++ replicate 10 0)
      → let s₁ = after dhcpoffer y t first in
        let r = arrived s₁ (heard dhcprequest here 0 y xid mac six s₁.dhcp_recv) in
        round e₂ (some (asking dhcprequest here 0 y xid mac six)) s₁
        ≡ ok (reply (after dhcpack y (add_lease e₂.stamp_time t y r.dhcp_recv.chaddr) r, 300))
  unfolding change_socket_setup
  acked_round t y short free =
      let s₁ = after dhcpoffer y t first in
      let h₁ =
        replied-IsPacket first.dhcp_recv
          (heard-IsPacket dhcpdiscover c_server 0 c_yiaddr xid mac six (omega arith) s.dhcp_recv h)
          dhcpoffer y short in
      round_grants e₂ s₁ h₁ y xid mac six short (
        subst (IsFree e₂.check_time t (ntohl y))
          (sym (heard_padded dhcprequest here 0 y xid mac six s₁.dhcp_recv)) free)

added_stamp :
    (now a : ℕ) (mac : Bytes) (old : Option Lease) → (added now a mac old).time_stamp ≡ now
added_stamp now a mac none = refl
added_stamp now a mac (some l) = refl

-- A client that has no address and a server whose table of leases is well-formed complete the exchange
-- of four packets, whatever the client asked for before and the buffers held, if the draws of the server
-- cover the pool, the table has room or knows the client, and the clock does not go back.
-- The server answers the first request with an offer and the second with an acknowledgement, the client
-- accepts both and keeps the address that was offered; it lies in the pool, and the table of the server
-- has a lease for it, stamped with the time of the acknowledgement.
pub lease-Acquired :
    {K : Type 0} (e₁ e₂ : Env) (s : Server) (dev : Device K) (c : Client K) (mac : Bytes)
    (six : length mac ≡ 6) (offered acked : Packet) (rest : List (Option Bytes))
    → dev.get_hwaddr c.device ≡ some mac
    → get_ip_address dev c.device ≡ 0
    → c.yiaddr < 2 ^ 32
    → IsPacket s.dhcp_recv
    → IsPacket offered
    → IsPacket acked
    → IsPooled s.leases
    → Covers e₁.random
    → (find_mac (mac ++ replicate 10 0) s.leases.lease_head ≡ none
        → s.leases.num_of_lease < ip_address_pool_amount)
    → e₁.check_time ≤ e₂.check_time
    → Acquired e₁ e₂ s dev c mac six offered acked rest
unfolding reply change_socket_setup
lease-Acquired e₁ e₂ s dev c mac six offered acked rest named blank word h ho ha pool covers room
      order =
    let xid = (discovering c).xid in
    let (t, y, run₁, short, free, before, pooled_table, count, still) =
      offered_round e₁ e₂ s h mac six c.dhcp_server_identifier c.yiaddr xid word pool covers room in
    let q₁ = heard dhcpdiscover c.dhcp_server_identifier 0 c.yiaddr xid mac six s.dhcp_recv in
    let i₁ =
      heard-IsPacket dhcpdiscover c.dhcp_server_identifier 0 c.yiaddr xid mac six (omega arith)
        s.dhcp_recv h in
    let s₁ = after dhcpoffer y t (arrived s q₁) in
    let j₁ = replied-IsPacket q₁ i₁ dhcpoffer y short in
    let run₂ =
      acked_round e₁ e₂ s h mac six c.dhcp_server_identifier c.yiaddr xid word pool covers room t y
        short (free e₂.check_time order) in
    let q₂ = heard dhcprequest here 0 y xid mac six s₁.dhcp_recv in
    let i₂ = heard-IsPacket dhcprequest here 0 y xid mac six (omega arith) s₁.dhcp_recv j₁ in
    let same : htonl (ntohl y) ≡ y = htonl-htonl y short in
    let offer = record (replied dhcpoffer y q₁) {
      options = (wrote (answer_with_times dhcpoffer) offered.options).0;
    } in
    let ack = record (replied dhcpack y q₂) {
      options = (wrote (answer_with_times dhcpack) acked.options).0;
    } in
    let table = add_lease e₂.stamp_time t y q₂.chaddr in
    let inside = (free e₂.check_time order).pooled in
    let s₂ = after dhcpack y table (arrived s₁ q₂) in
    let there = lookup-add_lease e₂.stamp_time t y q₂.chaddr (ntohl y) in
    record {
      s₁ = s₁;
      s₂ = s₂;
      offer = broadcast s₁.dhcp_recv;
      ack = broadcast s₂.dhcp_recv;
      address = ntohl y;
      packet = ack;
      lease = added e₂.stamp_time (ntohl y) q₂.chaddr (lookup (ntohl y) t.lease_head);
      offers = run₁;
      grants = rw same run₂;
      acquires = rw same (
          dhcp_discover_answered
            (record c {
              inbox =
                  some (broadcast s₁.dhcp_recv).payload
                  ∷ some (broadcast s₂.dhcp_recv).payload
                  ∷ rest;
            })
            mac six dev offered acked offer ack (broadcast s₁.dhcp_recv).payload
            (broadcast s₂.dhcp_recv).payload offered.options acked.options rest named blank refl
            (receive-replied q₁ i₁ dhcpoffer y short offered ho)
            (replied-Answers xid c.dhcp_server_identifier 0 c.yiaddr dhcpdiscover dhcpoffer y mac
              six s.dhcp_recv offered)
            (receive-replied q₂ i₂ dhcpack y short acked ha)
            (replied-Answers xid here 0 y dhcprequest dhcpack y mac six s₁.dhcp_recv acked));
      pooled = inside;
      granted = sym same;
      options = refl;
      recorded = there ∙ rw (==-refl) refl;
      stamped = added_stamp e₂.stamp_time (ntohl y) q₂.chaddr (lookup (ntohl y) t.lease_head);
      holder = λ nothing.
          ap (λ old. (added e₂.stamp_time (ntohl y) q₂.chaddr old).chaddr) (still (ntohl y) nothing)
          ∙ ap (take hardware_address_length)
              (heard_padded dhcprequest here 0 y xid mac six s₁.dhcp_recv);
      free = before;
      table = add_lease-IsPooled e₂.stamp_time t y q₂.chaddr pooled_table inside;
      grown = omega (arith, count, add_lease-num e₂.stamp_time t y q₂.chaddr);
      buffer = replied-IsPacket q₂ i₂ dhcpack y short;
    }
