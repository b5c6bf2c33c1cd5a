-- ===== src/Client/Timers.antt =====
-- The timers of the client when no server answers.
use internet_applications.Base.{
  ℕ, suc, ◌+◌, ◌-◌, ◌%◌, ◌^◌, ◌<◌, ◌≡◌, ◌≢◌, ne→==, refl, none, some, [], ◌∷◌, Bytes, ok, arith,
  negsuc, take,
}
use internet_applications.Words.{htonl, ntohl}
use internet_applications.Protocol.{dhcprequest, inaddr_any, inaddr_broadcast}
use internet_applications.Packet.{Packet, pack}
use internet_applications.Options.Fill.{wrote}
use internet_applications.Request.{request_header}
use internet_applications.Request.Written.{requested, request_options-wrote}
use internet_applications.Client.{
  Device, Client, get_mac_address, get_ip_address, construct_dhcp_packet, packet_from, send_packet,
  sendto, new_xid, change_socket_setup, set_timer, receive_reply, await_reply, take_ack, exchange,
  dhcp_renew, dhcp_rebind,
}
use internet_applications.Client.Interface.{change, setup_interface_release}
use internet_applications.Client.Menu.{settle, renew, rebind, lease_time_out, expire}

module _ {K : Type 0} (dev : Device K) where
  -- The packet of a request and its size.
  unfoldable pub built : (state : ℕ) (mac : Bytes) → Client K → Packet × ℕ
  built state mac s =
      let p = request_header state s.xid (get_ip_address dev s.device) mac in
      let (options, len) =
        wrote (requested state s.dhcp_server_identifier p.ciaddr s.yiaddr) p.options in
      (record p { options = options }, (240 + len) % 2 ^ 16)

  pub construct_dhcp_packet-built :
      (state : ℕ) (mac : Bytes) (s : Client K)
      → dev.get_hwaddr s.device ≡ some mac
      → construct_dhcp_packet dev state s ≡ ok (some (built state mac s, s))
  unfolding construct_dhcp_packet packet_from get_mac_address built request_header
  construct_dhcp_packet-built state mac s named = rw (
    named,
    request_options-wrote state s.dhcp_server_identifier (get_ip_address dev s.device) s.yiaddr
        (request_header state s.xid (get_ip_address dev s.device) mac).options refl,
  )

  -- The state after a request to `server`, in host order, that stays without an answer.
  pub unanswered : (state server : ℕ) (mac : Bytes) → Client K → Client K
  unanswered state server mac s =
      let asking = record s {
        xid = s.rand s.calls % 2 ^ 32;
        calls = suc s.calls;
        client_addr = htonl (ntohl (get_ip_address dev s.device));
        server_addr = htonl server;
      } in
      let (p, size) = built state mac asking in
      record asking {
        sent = record { to_addr = htonl server; payload = take size (pack p) } ∷ s.sent;
      }

  exchange-unanswered :
      (state server : ℕ) (acked : Packet) (mac : Bytes) (s : Client K)
      → dev.get_hwaddr s.device ≡ some mac
      → s.inbox ≡ []
      → exchange dev state server acked s
        ≡ ok (some ((negsuc 0, none), unanswered state server mac s))
  unfolding exchange send_packet sendto new_xid change_socket_setup receive_reply await_reply
      take_ack unanswered
  exchange-unanswered state server acked mac s named quiet =
      let asking = record s {
        xid = s.rand s.calls % 2 ^ 32;
        calls = suc s.calls;
        client_addr = htonl (ntohl (get_ip_address dev s.device));
        server_addr = htonl server;
      } in
      rw (construct_dhcp_packet-built state mac asking named, quiet) refl

module _ {K : Type 0} (dev : Device K) (stack : Packet) (mac : Bytes) (s : Client K)
    (named : dev.get_hwaddr s.device ≡ some mac) (quiet : s.inbox ≡ []) where
  renew-unanswered :
      renew dev stack s
      ≡ ok (some (tt, unanswered dev dhcprequest (ntohl s.dhcp_server_identifier) mac s))
  unfolding renew dhcp_renew settle
  renew-unanswered =
      rw
        (exchange-unanswered dev dhcprequest (ntohl s.dhcp_server_identifier) stack mac s named
          quiet)
        refl

  rebind-unanswered :
      rebind dev stack s ≡ ok (some (tt, unanswered dev dhcprequest inaddr_broadcast mac s))
  unfolding rebind dhcp_rebind settle
  rebind-unanswered =
      rw (exchange-unanswered dev dhcprequest inaddr_broadcast stack mac s named quiet) refl

-- The alarms of a lease whose times are `t1 < t2 < lease` seconds after the reply.
pub record Armed {K : Type 0} (t1 t2 lease : ℕ) (s : Client K) : Type 0 where
  pub alarm : s.alarm ≡ t1
  pub t1_time : s.t1_time ≡ t1
  pub t2_time : s.t2_time ≡ t2
  pub lease_time : s.lease_time ≡ lease

module _ {K : Type 0} (dev : Device K) (stack : Packet) (mac : Bytes) (s : Client K)
    (named : dev.get_hwaddr s.device ≡ some mac) (quiet : s.inbox ≡ []) where
  -- The handler at T1, at T2 and at the end of the lease, with the state that each leaves.
  at_t1 : Client K
  at_t1 =
      unanswered dev dhcprequest (ntohl s.dhcp_server_identifier) mac
        (record s { alarm = (s.t2_time + 2 ^ 32 - s.t1_time) % 2 ^ 32; t1_time = 0 })

  expire-t1 : s.alarm ≢ 0 → s.t1_time ≢ 0 → expire dev stack s ≡ ok (some (tt, at_t1))
  unfolding expire lease_time_out set_timer at_t1
  expire-t1 armed early =
      rw
        (
          ne→== s.alarm 0 armed,
          ne→== s.t1_time 0 early,
          renew-unanswered dev stack mac
              (record s { alarm = (s.t2_time + 2 ^ 32 - s.t1_time) % 2 ^ 32; t1_time = 0 }) named
              quiet,
        )
        refl

  at_t2 : Client K
  at_t2 =
      unanswered dev dhcprequest inaddr_broadcast mac
        (record s { alarm = (s.lease_time + 2 ^ 32 - s.t2_time) % 2 ^ 32; t2_time = 0 })

  expire-t2 :
      s.alarm ≢ 0 → s.t1_time ≡ 0 → s.t2_time ≢ 0 → expire dev stack s ≡ ok (some (tt, at_t2))
  unfolding expire lease_time_out set_timer at_t2
  expire-t2 armed over early =
      rw
        (
          ne→== s.alarm 0 armed,
          over,
          ne→== s.t2_time 0 early,
          rebind-unanswered dev stack mac
              (record s {
                alarm = (s.lease_time + 2 ^ 32 - s.t2_time) % 2 ^ 32;
                t1_time = 0;
                t2_time = 0;
              })
              named quiet,
        )
        refl

-- One request for the lease is sent to `server`, in network order, and nothing else: with a new xid of
-- `rand`, and the address of the interface.
abbrev pub Asked : {K : Type 0} → Device K → (server : ℕ) → Bytes → Client K → Client K → Type 0
Asked dev server mac s s' =
    let asking = record s { xid = s.rand s.calls % 2 ^ 32; calls = suc s.calls } in
    let (p, size) = built dev dhcprequest mac asking in
    (s'.sent ≡ record { to_addr = server; payload = take size (pack p) } ∷ s.sent)
    × (s'.xid ≡ asking.xid)
    × (s'.calls ≡ asking.calls)

-- `expire` succeeds and leaves the alarm at `n`.
abbrev pub Expires : {K : Type 0} → Device K → Packet → Client K → (n : ℕ) → Client K → Type 0
Expires dev stack s n s' = (expire dev stack s ≡ ok (some (tt, s'))) × (s'.alarm ≡ n)

expire-end :
    {K : Type 0} (dev : Device K) (stack : Packet) (s : Client K)
    → s.alarm ≢ 0
    → s.t1_time ≡ 0
    → s.t2_time ≡ 0
    → expire dev stack s
      ≡ ok (some (tt, record s { alarm = 0; device = (dev.set_addr 0 s.device).0 }))
unfolding expire lease_time_out set_timer setup_interface_release change htonl
expire-end dev stack s armed over over' = rw (ne→== s.alarm 0 armed, over, over') refl

-- A lease whose times are `t1 < t2 < lease`, on an interface that has a hardware address, while no
-- reply arrives: the alarm runs out three times, after T1, T2 - T1 and lease - T2 seconds, so at T1,
-- T2 and the end of the lease. The first time sends one request to the server that was chosen, the
-- second one to everybody, each with a new xid and the address of the interface, which changes nothing
-- at the interface; the third sends nothing, releases the address and sets no alarm.
pub expire_unanswered :
    {K : Type 0} (dev : Device K) (stack : Packet) (mac : Bytes) (s : Client K) (t1 t2 lease : ℕ)
    → dev.get_hwaddr s.device ≡ some mac
    → s.inbox ≡ []
    → Armed t1 t2 lease s
    → 0 < t1
    → t1 < t2
    → t2 < lease
    → lease < 2 ^ 32
    → (s₁ s₂ s₃ : Client K) × Expires dev stack s (t2 - t1) s₁
      × Expires dev stack s₁ (lease - t2) s₂
      × Expires dev stack s₂ 0 s₃
      × Asked dev (htonl (ntohl s.dhcp_server_identifier)) mac s s₁
      × Asked dev (htonl inaddr_broadcast) mac s₁ s₂
      × (s₃.sent ≡ s₂.sent)
      × (s₂.device ≡ s.device)
      × (s₃.device ≡ (dev.set_addr (htonl inaddr_any) s.device).0)
      × (s.alarm + s₁.alarm + s₂.alarm ≡ lease)
unfolding at_t1 at_t2 unanswered htonl built
expire_unanswered dev stack mac s t1 t2 lease named quiet armed positive before inside short =
    let s₁ = at_t1 dev stack mac s named quiet in
    let s₂ = at_t2 dev stack mac s₁ named quiet in
    let late : (t2 + 2 ^ 32 - t1) % 2 ^ 32 ≡ t2 - t1 = omega arith in
    let last : (lease + 2 ^ 32 - t2) % 2 ^ 32 ≡ lease - t2 = omega arith in
    let a₁ : s₁.alarm ≡ t2 - t1 = rw (armed.t2_time, armed.t1_time) late in
    let a₂ : s₂.alarm ≡ lease - t2 = rw (armed.lease_time, armed.t2_time) last in
    let first =
      expire-t1 dev stack mac s named quiet (omega (arith, armed.alarm))
        (omega (arith, armed.t1_time)) in
    let second =
      expire-t2 dev stack mac s₁ named quiet (omega (arith, a₁)) refl
        (omega (arith, armed.t2_time)) in
    let third = expire-end dev stack s₂ (omega (arith, a₂)) refl refl in
    (
      s₁,
      s₂,
      record s₂ { alarm = 0; device = (dev.set_addr 0 s.device).0 },
      (first, a₁),
      (second, a₂),
      (third, refl),
      (refl, refl, refl),
      (refl, refl, refl),
      refl,
      refl,
      refl,
      omega (arith, a₁, a₂, armed.alarm),
    )
