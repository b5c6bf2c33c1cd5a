-- ===== src/Server/Leases.antt =====
-- What a round of the server keeps of the leases.
use internet_applications.Base.{
  ℕ, ◌≡◌, refl, sym, ◌∙◌, true, Option, none, some, Bytes, Run, ok, or_fault, ◌>>=◌, ◌==◌,
  get_elem?, is_positive, arith, Bool-cases, inl, inr, ==→ne, ==→eq, Ensures, bind-Ensures,
  any-Ensures,
}
use mathlib.Core.Path.{subst}
use internet_applications.Words.{htonl, ntohl}
use internet_applications.Protocol
use internet_applications.Protocol.{
  dhcpdiscover, dhcprequest, dhcprelease, dhcpinform, dhcpoffer, dhcpack, dhcpnak, inaddr_any,
  inaddr_broadcast, dhcp_server_ip_address,
}
use internet_applications.Options.{get_dhcp_option}
use internet_applications.Options.Scan.{get_dhcp_option_again}
use internet_applications.Lease.{Leases, check_ipaddr, add_lease, delete_lease}
use internet_applications.Reply.{
  Server, Env, change_socket_setup, load_value, requested_ip, construct_dhcp_packet,
}
use internet_applications.Reply.Kept.{Allocates, MayAdd, construct_dhcp_packet-Kept}
use internet_applications.Server.{
  Sent, reply, unicast_setup, dhcp_handle_discover, answer, selected_server, is_own,
  dhcp_handle_request, dhcp_handle_release, dhcp_handle_inform, dispatch, handle,
}

-- The requested address, if it passes the check, may be added.
abbrev pub MayGrant : (Leases → Type 0) → Env → Server → Type 0
MayGrant P e s =
    (n ip : ℕ) (value : Option ℕ)
    → get_dhcp_option s.dhcp_recv.options Protocol.option_requested_ip none ≡ ok (n, value)
    → load_value s.dhcp_recv.options value ≡ ok ip
    → is_positive (check_ipaddr e.check_time s.leases ip s.dhcp_recv.chaddr) ≡ true
    → P (add_lease e.stamp_time s.leases ip s.dhcp_recv.chaddr)

abbrev pub Same : Server → Server → Type 0
Same s s' = (s'.leases ≡ s.leases) × (s'.dhcp_recv ≡ s.dhcp_recv)

pub unicast_setup-Same :
    (e : Env) (s : Server) (value : Option ℕ) → Ensures (λ r. Same s r.0) (unicast_setup e s value)
unfolding unicast_setup change_socket_setup
unicast_setup-Same e s value =
    elim (Bool-cases (s.dhcp_recv.flags == htonl Protocol.bootp_flags_unicast)) [
      | inr other ↦ rw other (refl, refl)
      | inl unicast ↦ rw unicast (
          any-Ensures _ (requested_ip e.flag_time s value) _
            λ (wanted, value') asked. set_up wanted value')
    ]
  where
    set_up :
        (wanted value' : Option ℕ)
        → Ensures
            (λ (r : Server × Option ℕ). Same s r.0)
            (elim wanted [
              | some _ ↦
                  ok (
                    change_socket_setup dhcp_server_ip_address (ntohl s.dhcp_recv.ciaddr) s,
                    value',
                  )
              | none ↦ ok (s, value')
            ])
    set_up none value' = (refl, refl)
    set_up (some ip) value' = (refl, refl)

-- The message type that the packet names.
abbrev pub HasType : Server → ℕ → Type 0
HasType s m =
    (p : ℕ) × (get_dhcp_option s.dhcp_recv.options Protocol.option_dhcp_message_type none
      ≡ ok (1, some p))
    × (get_elem? s.dhcp_recv.options p ≡ some m)

pub pointed :
    (n p : ℕ) (value : Option ℕ)
    → (n == 1) ≡ true
    → or_fault value ≡ ok p
    → ◌≡◌ {A = Run (ℕ × Option ℕ)} (ok (n, value)) (ok (1, some p))
pointed n p none one there = cc
pointed n p (some q) one there = ground arith

pub or_fault-ok : (o : Option ℕ) {m : ℕ} → or_fault o ≡ ok m → o ≡ some m
or_fault-ok none h = cc
or_fault-ok (some x) h = ground arith

-- The request for a new address reads the requested address twice, and finds the same one.
same_ip :
    (b : Bytes) (t n m ip ip' : ℕ) (old value value' : Option ℕ)
    → get_dhcp_option b t none ≡ ok (n, value)
    → load_value b value ≡ ok ip
    → get_dhcp_option b t old ≡ ok (m, value')
    → load_value b value' ≡ ok ip'
    → ip' ≡ ip
unfolding load_value
same_ip b t n m ip ip' old none value' h l h' l' = cc
same_ip b t n m ip ip' old (some p) value' h l h' l' =
    ground (arith, get_dhcp_option_again b t n m p old value' h h')

module _ (P : Leases → Type 0) (keep : Allocates P) (e : Env) where
  abbrev Holds : Server × Option Sent → Type 0
  Holds r = P r.0.leases

  built-Holds :
      (state : ℕ) (s : Server)
      → P s.leases
      → MayAdd P e state s
      → Ensures Holds (construct_dhcp_packet e state s >>= λ built. ok (reply built))
  unfolding reply
  built-Holds state s h may =
      bind-Ensures _ _ (construct_dhcp_packet e state s) _
        (construct_dhcp_packet-Kept P keep e state s h may) λ built run kept. kept

  discover-Holds : (s : Server) → P s.leases → Ensures Holds (dhcp_handle_discover e s)
  unfolding dhcp_handle_discover change_socket_setup
  discover-Holds s h =
      let s₀ = change_socket_setup inaddr_any inaddr_broadcast s in
      bind-Ensures _ _ (unicast_setup e s₀ none) _ (unicast_setup-Same e s₀ none)
        λ (s', value) run (same, recv).
          built-Holds dhcpoffer s' (subst P (sym same) h) (λ offer. absurd (omega arith))

  inform-Holds :
      (s : Server) → P s.leases → MayAdd P e dhcpack s → Ensures Holds (dhcp_handle_inform e s)
  unfolding dhcp_handle_inform change_socket_setup
  inform-Holds s h may =
      built-Holds dhcpack (change_socket_setup dhcp_server_ip_address (ntohl s.dhcp_recv.ciaddr) s)
        h may

  answer-Holds :
      (ip : ℕ) (s : Server)
      → P s.leases
      → (is_positive (check_ipaddr e.check_time s.leases ip s.dhcp_recv.chaddr) ≡ true
          → MayAdd P e dhcpack s)
      → Ensures Holds (answer e ip s)
  unfolding answer
  answer-Holds ip s h may =
      elim (Bool-cases (is_positive (check_ipaddr e.check_time s.leases ip s.dhcp_recv.chaddr))) [
        | inl good ↦ rw good (built-Holds dhcpack s h (may good))
        | inr bad ↦ rw bad (built-Holds dhcpnak s h (λ nak. absurd (omega arith)))
      ]

  grants :
      (s s' : Server)
      → s'.leases ≡ s.leases
      → s'.dhcp_recv ≡ s.dhcp_recv
      → MayGrant P e s
      → (n ip : ℕ) (old value : Option ℕ)
      → get_dhcp_option s.dhcp_recv.options Protocol.option_requested_ip old ≡ ok (n, value)
      → load_value s.dhcp_recv.options value ≡ ok ip
      → is_positive (check_ipaddr e.check_time s'.leases ip s'.dhcp_recv.chaddr) ≡ true
      → MayAdd P e dhcpack s'
  grants s s' same recv grant n ip old value got loaded good ack blank n' ip' value' got' loaded' =
      let got₀ = rw recv at got' in
      let loaded₀ = rw recv at loaded' in
      let e' : ip ≡ ip' =
        same_ip s.dhcp_recv.options Protocol.option_requested_ip n' n ip' ip old value' value got₀
          loaded₀ got loaded in
      rw (same, recv) (grant n' ip' value' got₀ loaded₀ (rw (same, recv, e') at good))

  request-Holds :
      (s : Server) → P s.leases → MayGrant P e s → Ensures Holds (dhcp_handle_request e s)
  unfolding dhcp_handle_request change_socket_setup
  request-Holds s h grant = any-Ensures _ (selected_server s) _ λ (selected, value) asked.
      elim (Bool-cases (is_own selected)) [
        | inr other ↦ rw other h
        | inl own ↦ rw own (elim (Bool-cases (s.dhcp_recv.ciaddr == htonl inaddr_any)) [
          | inl blank ↦ rw blank (
              let s₀ = change_socket_setup inaddr_any inaddr_broadcast s in
              bind-Ensures _ _ (unicast_setup e s₀ value) _ (unicast_setup-Same e s₀ value)
                λ (s', value') run (same, recv).
                  any-Ensures _
                    (get_dhcp_option s.dhcp_recv.options Protocol.option_requested_ip value') _
                    λ (n, requested) got.
                      any-Ensures _ (load_value s.dhcp_recv.options requested) _ λ ip loaded.
                        answer-Holds ip s' (subst P (sym same) h)
                          (grants s s' same recv grant n ip value' requested got loaded))
          | inr bound ↦ rw bound (
              answer-Holds s.dhcp_recv.ciaddr
                (change_socket_setup dhcp_server_ip_address (ntohl s.dhcp_recv.ciaddr) s) h
                λ good ack blank. absurd (==→ne _ _ bound blank))
        ])
      ]

  release-Holds :
      (s : Server)
      → P s.leases
      → P (delete_lease s.leases s.dhcp_recv.ciaddr s.dhcp_recv.chaddr)
      → Ensures Holds (dhcp_handle_release s)
  unfolding dhcp_handle_release
  release-Holds s h gone = any-Ensures _ (selected_server s) _ λ (selected, value) asked.
      elim (Bool-cases (is_own selected)) [ inr other ↦ rw other h | inl own ↦ rw own gone ]

  -- What the handlers do to the leases is allowed; what an inform or a release does, if the packet is one.
  pub record Allowed (s : Server) : Type 0 where
    pub grant : MayGrant P e s
    pub inform : HasType s dhcpinform → MayAdd P e dhcpack s
    pub gone :
        HasType s dhcprelease → P (delete_lease s.leases s.dhcp_recv.ciaddr s.dhcp_recv.chaddr)

  dispatch-Holds :
      (msg_type : ℕ) (s : Server)
      → P s.leases
      → HasType s msg_type
      → Allowed s
      → Ensures Holds (dispatch e msg_type s)
  unfolding dispatch
  dispatch-Holds m s h type a = elim (Bool-cases (m == dhcpdiscover)) [
    | inl c ↦ rw c (discover-Holds s h)
    | inr c₁ ↦ rw c₁ (elim (Bool-cases (m == dhcprequest)) [
      | inl c ↦ rw c (request-Holds s h a.grant)
      | inr c₂ ↦ rw c₂ (elim (Bool-cases (m == dhcprelease)) [
        | inl c ↦ rw c (release-Holds s h (a.gone (subst (HasType s) (==→eq m dhcprelease c) type)))
        | inr c₃ ↦ rw c₃ (elim (Bool-cases (m == dhcpinform)) [
          | inl c ↦
              rw c (inform-Holds s h (a.inform (subst (HasType s) (==→eq m dhcpinform c) type)))
          | inr c₄ ↦ rw c₄ h
        ])
      ])
    ])
  ]

  pub handle-Holds : (s : Server) → P s.leases → Allowed s → Ensures Holds (handle e s)
  unfolding handle
  handle-Holds s h a =
      elim (Bool-cases (s.dhcp_recv.opcode == Protocol.bootp_message_type_request)) [
        | inr other ↦ rw other h
        | inl request ↦ rw request (
            any-Ensures _
              (get_dhcp_option s.dhcp_recv.options Protocol.option_dhcp_message_type none) _
              λ (n, value) got. elim (Bool-cases (n == 1)) [
                | inr long ↦ rw long h
                | inl one ↦ rw one (
                    any-Ensures _ (or_fault value) _ λ p there.
                      any-Ensures _ (or_fault (get_elem? s.dhcp_recv.options p)) _ λ m byte.
                        dispatch-Holds m s h
                          (p, got ∙ pointed n p value one there, or_fault-ok _ byte) a)
              ])
      ]
