-- ===== src/Reply/Kept.antt =====
-- What `choose_yiaddr` and `construct_dhcp_packet` leave alone.
use internet_applications.Base.{
  ℕ, ◌≡◌, refl, ap, or_fault, Bool, true, false, ◌&&◌, Option, none, some, Bytes, Run, ok, ◌>>=◌,
  ◌==◌, if◌then◌else◌, arith, Bool-cases, inl, inr, ne→==, ◌≢◌, Ensures, bind-Ensures, any-Ensures,
  ℤ,
}
use internet_applications.Words.{htonl}
use internet_applications.Protocol
use internet_applications.Protocol.{dhcpnak, dhcpoffer, dhcpack, inaddr_any}
use internet_applications.Options.{get_dhcp_option}
use internet_applications.Lease.{Leases, Random, allocate_ip, add_lease}
use internet_applications.Reply.{
  Server, Env, set_recv, set_yiaddr, load_value, requested_ip, allocate, choose_yiaddr,
  write_options, construct_dhcp_packet,
}

-- The packet that is received changes in `yiaddr` alone, the socket addresses do not change, and the
-- leases satisfy `P`.
pub record Kept (P : Leases → Type 0) (s s' : Server) : Type 0 where
  pub leases : P s'.leases
  pub recv : s'.dhcp_recv ≡ record s.dhcp_recv { yiaddr = s'.dhcp_recv.yiaddr }
  pub server_addr : s'.server_addr ≡ s.server_addr
  pub client_addr : s'.client_addr ≡ s.client_addr

-- `P` survives the allocation of an address.
abbrev pub Allocates : (Leases → Type 0) → Type 0
Allocates P =
    (r : Random) (now seed_time : ℕ) (t : Leases) (mac : Bytes)
    → P t
    → (t' : Leases) (res : ℤ) (a : Option ℕ) → allocate_ip r now seed_time t mac ≡ ok (t', res, a)
    → P t'

-- `P` survives the lease that an acknowledgement adds.
abbrev pub MayAdd : (Leases → Type 0) → Env → ℕ → Server → Type 0
MayAdd P e state s =
    state ≡ dhcpack
    → s.dhcp_recv.ciaddr ≡ htonl inaddr_any
    → (n ip : ℕ) (value : Option ℕ)
    → get_dhcp_option s.dhcp_recv.options Protocol.option_requested_ip none ≡ ok (n, value)
    → load_value s.dhcp_recv.options value ≡ ok ip
    → P (add_lease e.stamp_time s.leases ip s.dhcp_recv.chaddr)

module _ (P : Leases → Type 0) (keep : Allocates P) (e : Env) where
  allocate-Kept :
      (s : Server)
      → P s.leases
      → Ensures (λ r. P r.0.leases × (r.0 ≡ record s { leases = r.0.leases })) (allocate e s)
  unfolding allocate
  allocate-Kept s h =
      any-Ensures _ (allocate_ip e.random e.stamp_time e.seed_time s.leases s.dhcp_recv.chaddr) _
        λ (leases, res, ip) run. (
          keep e.random e.stamp_time e.seed_time s.leases s.dhcp_recv.chaddr h leases res ip run,
          refl,
        )

  -- What the branches do with the address that was allocated.
  abbrev given : Server → Option ℕ → Run (Server × Bool)
  given s' a = or_fault a >>= λ x. ok (set_yiaddr s' (htonl x), true)

  abbrev offered : Server → Option ℕ → Run (Server × Bool)
  offered s (some ip) = ok (set_yiaddr s ip, true)
  offered s none = do (s', failed, a) ← allocate e s; if failed then ok (s', false) else given s' a

  given-Kept :
      (s s' : Server) (a : Option ℕ)
      → P s'.leases
      → s' ≡ record s { leases = s'.leases }
      → Ensures (λ r. Kept P s r.0) (given s' a)
  given-Kept s s' none h same = tt
  given-Kept s s' (some x) h same = record {
    leases = h;
    recv = ap (λ r. record r.dhcp_recv { yiaddr = htonl x }) same;
    server_addr = ap (λ r. r.server_addr) same;
    client_addr = ap (λ r. r.client_addr) same;
  }

  unchanged-Kept :
      (s s' : Server) → P s'.leases → s' ≡ record s { leases = s'.leases } → Kept P s s'
  unchanged-Kept s s' h same = record {
    leases = h;
    recv = ground arith;
    server_addr = ap (λ r. r.server_addr) same;
    client_addr = ap (λ r. r.client_addr) same;
  }

  offered-Kept :
      (s : Server) (wanted : Option ℕ) → P s.leases → Ensures (λ r. Kept P s r.0) (offered s wanted)
  offered-Kept s (some ip) h = record {
    leases = h;
    recv = refl;
    server_addr = refl;
    client_addr = refl;
  }
  offered-Kept s none h =
      bind-Ensures (λ r. P r.0.leases × (r.0 ≡ record s { leases = r.0.leases })) _ (allocate e s) _
        (allocate-Kept s h)
        λ (s', failed, a) run (hp, same). elim (Bool-cases failed) [
          | inl yes' ↦ rw yes' (unchanged-Kept s s' hp same)
          | inr no' ↦ rw no' (given-Kept s s' a hp same)
        ]

  pub choose_yiaddr-Kept :
      (state : ℕ) (s : Server)
      → P s.leases
      → MayAdd P e state s
      → Ensures (λ r. Kept P s r.0) (choose_yiaddr e state s)
  unfolding choose_yiaddr
  choose_yiaddr-Kept state s h may = elim (Bool-cases (state == dhcpnak)) [
    | inl nak ↦ rw nak (record { leases = h; recv = refl; server_addr = refl; client_addr = refl })
    | inr c₁ ↦ rw c₁ (elim (Bool-cases (state == dhcpoffer)) [
      | inl offer ↦ rw offer (
          any-Ensures _ (requested_ip e.check_time s none) _
            λ (wanted, value) asked. offered-Kept s wanted h)
      | inr c₂ ↦
          rw c₂
            (elim (Bool-cases ((state == dhcpack) && (s.dhcp_recv.ciaddr == htonl inaddr_any))) [
              | inl ack ↦ rw ack (
                  any-Ensures _
                    (get_dhcp_option s.dhcp_recv.options Protocol.option_requested_ip none) _
                    λ (n, value) got.
                      any-Ensures _ (load_value s.dhcp_recv.options value) _ λ ip loaded. record {
                        leases = may (ground arith) (ground arith) n ip value got loaded;
                        recv = refl;
                        server_addr = refl;
                        client_addr = refl;
                      })
              | inr c₃ ↦ rw c₃ (
                  bind-Ensures (λ r. P r.0.leases × (r.0 ≡ record s { leases = r.0.leases })) _
                    (allocate e s) _ (allocate-Kept s h)
                    λ (s', failed, a) run (hp, same). given-Kept s s' a hp same)
            ])
    ])
  ]

  -- Of the whole construction only the leases and the socket addresses matter here.
  pub construct_dhcp_packet-Kept :
      (state : ℕ) (s : Server)
      → P s.leases
      → MayAdd P e state s
      → Ensures (λ r. P r.0.leases) (construct_dhcp_packet e state s)
  unfolding construct_dhcp_packet
  construct_dhcp_packet-Kept state s h may =
      let s₀ = set_recv s (record s.dhcp_recv { opcode = Protocol.bootp_message_type_reply }) in
      bind-Ensures (λ r. Kept P s₀ r.0) _ (choose_yiaddr e state s₀) _
        (choose_yiaddr-Kept state s₀ h may)
        λ (s₁, chosen) run kept. elim (Bool-cases chosen) [
          | inl yes' ↦ rw yes' (
              let p = record s₁.dhcp_recv { giaddr = htonl Protocol.dhcp_server_ip_address } in
              any-Ensures _ (get_dhcp_option p.options Protocol.option_dhcp_message_type none) _
                λ (n, msg_type) got.
                  any-Ensures _ (write_options state msg_type p.options) _
                    λ (options, len) written. kept.leases)
          | inr no' ↦ rw no' kept.leases
        ]

-- Only an offer can fail for want of an address.
pub choose_yiaddr-chosen :
    (e : Env) (state : ℕ) (s : Server)
    → state ≢ dhcpoffer
    → Ensures (λ r. r.1 ≡ true) (choose_yiaddr e state s)
unfolding choose_yiaddr
choose_yiaddr-chosen e state s ne =
    rw (ne→== state dhcpoffer ne) (elim (Bool-cases (state == dhcpnak)) [
      | inl nak ↦ rw nak refl
      | inr c₁ ↦
          rw c₁
            (elim (Bool-cases ((state == dhcpack) && (s.dhcp_recv.ciaddr == htonl inaddr_any))) [
              | inl ack ↦ rw ack (
                  any-Ensures _
                    (get_dhcp_option s.dhcp_recv.options Protocol.option_requested_ip none) _
                    λ (n, value) got.
                      any-Ensures _ (load_value s.dhcp_recv.options value) _ λ ip loaded. refl)
              | inr c₃ ↦ rw c₃ (
                  any-Ensures _ (allocate e s) _
                    λ (s', failed, a) run. any-Ensures _ (or_fault a) _ λ x given. refl)
            ])
    ])
