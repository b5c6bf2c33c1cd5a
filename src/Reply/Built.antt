-- ===== src/Reply/Built.antt =====
-- The packet that `construct_dhcp_packet` leaves in `dhcp_recv`, and its length.
use internet_applications.Base.{
  ℕ, ◌+◌, ◌≡◌, ◌≢◌, refl, ap, true, Option, none, some, List, ok, fault, out_of_fuel, ◌==◌,
  if◌then◌else◌, get_elem?, length, Bool-cases, inl, inr, ==-refl, Ensures, Ensures-elim,
  any-Ensures, Run-cases,
}
use internet_applications.Words.{htonl, bytes32}
use internet_applications.Protocol
use internet_applications.Protocol.{
  dhcpnak, dhcpack, dhcpoffer, dhcpinform, dhcp_server_ip_address, inaddr_any,
}
use internet_applications.Options.{get_dhcp_option}
use internet_applications.Options.Scan.{Tlv, encode}
use internet_applications.Options.Fill.{wrote}
use internet_applications.Lease.{add_lease}
use internet_applications.Reply.{
  Server, Env, set_recv, set_yiaddr, load_value, choose_yiaddr, write_options,
  construct_dhcp_packet,
}
use internet_applications.Reply.Kept.{Kept, choose_yiaddr-Kept, choose_yiaddr-chosen}
use internet_applications.Reply.Written.{
  refusal, network, answer_with_times, answer_without_times, write_options-nak,
  write_options-answer,
}

-- `opcode` is set before anything else.
abbrev pub as_reply : Server → Server
as_reply s = set_recv s (record s.dhcp_recv { opcode = Protocol.bootp_message_type_reply })

-- The packet once `os` is written over the options.
abbrev pub with_options : List Tlv → Server → Server
with_options os s = set_recv s (record s.dhcp_recv {
  giaddr = htonl dhcp_server_ip_address;
  options = (wrote os s.dhcp_recv.options).0;
})

abbrev pub size_of : List Tlv → ℕ
size_of os = Protocol.dhcp_fixed_non_udp + length (encode os)

module _ (e : Env) (s : Server)
    (size : length s.dhcp_recv.options ≡ Protocol.dhcp_max_option_len) where
  pub construct_dhcp_packet-nak :
      (n p : ℕ)
      → get_dhcp_option s.dhcp_recv.options Protocol.option_dhcp_message_type none ≡ ok (n, some p)
      → construct_dhcp_packet e dhcpnak s
        ≡ ok (with_options (refusal dhcpnak) (set_yiaddr (as_reply s) (htonl inaddr_any)), 264)
  unfolding construct_dhcp_packet choose_yiaddr wrote bytes32
  construct_dhcp_packet-nak n p got =
      rw (got, write_options-nak s.dhcp_recv.options size (some p)) refl

  pub construct_dhcp_packet-answer :
      (state n p m : ℕ) (s₁ : Server)
      → state ≢ dhcpnak
      → choose_yiaddr e state (as_reply s) ≡ ok (s₁, true)
      → s₁.dhcp_recv.options ≡ s.dhcp_recv.options
      → get_dhcp_option s.dhcp_recv.options Protocol.option_dhcp_message_type none ≡ ok (n, some p)
      → get_elem? (wrote (network state) s.dhcp_recv.options).0 p ≡ some m
      → let os = if m == dhcpinform then answer_without_times state else answer_with_times state in
        construct_dhcp_packet e state s ≡ ok (with_options os s₁, size_of os)
  unfolding construct_dhcp_packet wrote bytes32
  construct_dhcp_packet-answer state n p m s₁ ne chose same got byte =
      rw (chose, same, got, write_options-answer s.dhcp_recv.options size state p m ne byte)
        (elim (Bool-cases (m == dhcpinform)) [ inl c ↦ rw c refl | inr c ↦ rw c refl ])

  -- The address that an acknowledgement to a client without one records and returns.
  pub choose_yiaddr-ack :
      (n ip : ℕ) (value : Option ℕ)
      → s.dhcp_recv.ciaddr ≡ htonl inaddr_any
      → get_dhcp_option s.dhcp_recv.options Protocol.option_requested_ip none ≡ ok (n, value)
      → load_value s.dhcp_recv.options value ≡ ok ip
      → choose_yiaddr e dhcpack (as_reply s)
        ≡ ok (
          set_yiaddr
              (record (as_reply s) {
                leases = add_lease e.stamp_time s.leases ip s.dhcp_recv.chaddr;
              })
              ip,
          true,
        )
  unfolding choose_yiaddr
  choose_yiaddr-ack n ip value blank got loaded = rw (blank, ==-refl, got, loaded)

  construct_dhcp_packet-fault :
      (state : ℕ)
      → choose_yiaddr e state (as_reply s) ≡ fault
      → construct_dhcp_packet e state s ≡ fault
  unfolding construct_dhcp_packet
  construct_dhcp_packet-fault state run = rw run

  construct_dhcp_packet-fuel :
      (state : ℕ)
      → choose_yiaddr e state (as_reply s) ≡ out_of_fuel
      → construct_dhcp_packet e state s ≡ out_of_fuel
  unfolding construct_dhcp_packet
  construct_dhcp_packet-fuel state run = rw run

  -- Whatever address was chosen, the options of an answer are those of its type, and so is its length.
  pub construct_dhcp_packet-Written :
      (state n p m : ℕ)
      → state ≢ dhcpnak
      → state ≢ dhcpoffer
      → get_dhcp_option s.dhcp_recv.options Protocol.option_dhcp_message_type none ≡ ok (n, some p)
      → get_elem? (wrote (network state) s.dhcp_recv.options).0 p ≡ some m
      → let os = if m == dhcpinform then answer_without_times state else answer_with_times state in
        Ensures
          (λ r. (r.0.dhcp_recv.options ≡ (wrote os s.dhcp_recv.options).0) × (r.1 ≡ size_of os))
          (construct_dhcp_packet e state s)
  construct_dhcp_packet-Written state n p m nak offer got byte =
      elim (Run-cases (choose_yiaddr e state (as_reply s))) [
        | inl ((s₁, chosen), run) ↦
            let yes' : chosen ≡ true =
              Ensures-elim (λ r. r.1 ≡ true) (choose_yiaddr e state (as_reply s))
                (choose_yiaddr-chosen e state (as_reply s) offer) run in
            let kept =
              Ensures-elim (λ r. Kept (λ t. Unit {0}) (as_reply s) r.0)
                (choose_yiaddr e state (as_reply s))
                (choose_yiaddr-Kept (λ t. Unit {0}) (λ r now seed t mac h t' res a step. tt) e state
                  (as_reply s) tt (λ ack blank n' ip value found loaded. tt))
                run in
            let same : s₁.dhcp_recv.options ≡ s.dhcp_recv.options = ap (λ q. q.options) kept.recv in
            rw (construct_dhcp_packet-answer state n p m s₁ nak (rw yes' at run) same got byte)
              (rw same refl, refl)
        | inr (inl run) ↦ rw (construct_dhcp_packet-fault state run) tt
        | inr (inr run) ↦ rw (construct_dhcp_packet-fuel state run) tt
      ]

  -- An acknowledgement to a client without an address adds the lease of the requested address.
  pub construct_dhcp_packet-ack :
      (n ip : ℕ) (value : Option ℕ)
      → s.dhcp_recv.ciaddr ≡ htonl inaddr_any
      → get_dhcp_option s.dhcp_recv.options Protocol.option_requested_ip none ≡ ok (n, value)
      → load_value s.dhcp_recv.options value ≡ ok ip
      → Ensures
          (λ r. r.0.leases ≡ add_lease e.stamp_time s.leases ip s.dhcp_recv.chaddr)
          (construct_dhcp_packet e dhcpack s)
  unfolding construct_dhcp_packet
  construct_dhcp_packet-ack n ip value blank got loaded =
      rw (choose_yiaddr-ack n ip value blank got loaded) (
        any-Ensures _ (get_dhcp_option s.dhcp_recv.options Protocol.option_dhcp_message_type none) _
          λ (k, msg_type) type.
            any-Ensures _ (write_options dhcpack msg_type s.dhcp_recv.options) _
              λ (options, len) written. refl)
