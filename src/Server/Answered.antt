-- ===== src/Server/Answered.antt =====
-- Which datagrams the server answers, and which it acts on without an answer.
use internet_applications.Base.{
  ℕ, ◌≡◌, refl, ◌∙◌, ◌⊎◌, inl, inr, Bool-cases, true, if◌then◌else◌, Option, none, some, ok, ◌==◌,
  get_elem?, or_fault, is_positive, ==→eq, Ensures, any-Ensures,
}
use mathlib.Core.Path.{subst}
use internet_applications.Words.{htonl, ntohl}
use internet_applications.Protocol
use internet_applications.Protocol.{
  dhcpdiscover, dhcprequest, dhcprelease, dhcpinform, dhcpoffer, dhcpack, dhcpnak, inaddr_any,
  inaddr_broadcast, dhcp_server_ip_address,
}
use internet_applications.Options.{get_dhcp_option}
use internet_applications.Lease.{check_ipaddr, delete_lease}
use internet_applications.Reply.{
  Server, Env, change_socket_setup, load_value, construct_dhcp_packet,
}
use internet_applications.Server.{
  Sent, reply, unicast_setup, dhcp_handle_discover, answer, selected_server, is_own,
  dhcp_handle_request, dhcp_handle_release, dhcp_handle_inform, dispatch, handle,
}
use internet_applications.Server.Leases.{HasType, pointed, or_fault-ok}

-- The packet names this server.
abbrev pub NamesServer : Server → Type 0
NamesServer s = (value : Option ℕ) × (selected_server s ≡ ok (some dhcp_server_ip_address, value))

-- The packets of a client that are answered.
pub data Due (s : Server) : Type 0 where
  discover : HasType s dhcpdiscover → Due s
  request : HasType s dhcprequest → NamesServer s → Due s
  inform : HasType s dhcpinform → Due s

-- The releases.
pub record GivesUp (s t : Server) : Type 0 where
  pub kind : HasType s dhcprelease
  pub names : NamesServer s
  pub dropped :
      t ≡ record s { leases = delete_lease s.leases s.dhcp_recv.ciaddr s.dhcp_recv.chaddr }

-- What a datagram may lead to: an answer, if one is due; or none, and then the state stays or the packet
-- is a release.
abbrev pub Fits : Server → Server × Option Sent → Type 0
Fits s (t, some sent) = (s.dhcp_recv.opcode ≡ Protocol.bootp_message_type_request) × Due s
Fits s (t, none) =
    (t ≡ s) ⊎ ((s.dhcp_recv.opcode ≡ Protocol.bootp_message_type_request) × GivesUp s t)

own-server :
    (s : Server) (selected value : Option ℕ)
    → selected_server s ≡ ok (selected, value)
    → is_own selected ≡ true
    → NamesServer s
own-server s none value asked own = absurd (cc)
own-server s (some a) value asked own = (value, rw (==→eq dhcp_server_ip_address a own) asked)

module _ (e : Env) (s : Server)
    (asks : s.dhcp_recv.opcode ≡ Protocol.bootp_message_type_request) where
  discover-Fits : HasType s dhcpdiscover → Ensures (Fits s) (dhcp_handle_discover e s)
  unfolding dhcp_handle_discover reply
  discover-Fits type =
      any-Ensures _ (unicast_setup e (change_socket_setup inaddr_any inaddr_broadcast s) none) _
        λ (s', value) run.
          any-Ensures _ (construct_dhcp_packet e dhcpoffer s') _ λ built run'. (asks, discover type)

  answer-Fits : (ip : ℕ) (t : Server) → Due s → Ensures (Fits s) (answer e ip t)
  unfolding answer reply
  answer-Fits ip t due =
      any-Ensures _
        (construct_dhcp_packet e
          (if is_positive (check_ipaddr e.check_time t.leases ip t.dhcp_recv.chaddr)
            then dhcpack
            else dhcpnak)
          t)
        _ λ built run. (asks, due)

  request-Fits : HasType s dhcprequest → Ensures (Fits s) (dhcp_handle_request e s)
  unfolding dhcp_handle_request
  request-Fits type = any-Ensures _ (selected_server s) _ λ (selected, value) asked.
      elim (Bool-cases (is_own selected)) [
        | inr other ↦ rw other (inl refl)
        | inl own ↦
            let due = request type (own-server s selected value asked own) in
            rw own (elim (Bool-cases (s.dhcp_recv.ciaddr == htonl inaddr_any)) [
              | inl blank ↦ rw blank (
                  any-Ensures _
                    (unicast_setup e (change_socket_setup inaddr_any inaddr_broadcast s) value) _
                    λ (s', value') run.
                      any-Ensures _
                        (get_dhcp_option s.dhcp_recv.options Protocol.option_requested_ip value') _
                        λ (n, requested) got.
                          any-Ensures _ (load_value s.dhcp_recv.options requested) _
                            λ ip loaded. answer-Fits ip s' due)
              | inr bound ↦ rw bound (
                  answer-Fits s.dhcp_recv.ciaddr
                    (change_socket_setup dhcp_server_ip_address (ntohl s.dhcp_recv.ciaddr) s) due)
            ])
      ]

  release-Fits : HasType s dhcprelease → Ensures (Fits s) (dhcp_handle_release s)
  unfolding dhcp_handle_release
  release-Fits type = any-Ensures _ (selected_server s) _ λ (selected, value) asked.
      elim (Bool-cases (is_own selected)) [
        | inr other ↦ rw other (inl refl)
        | inl own ↦ rw own (
            inr (
              asks,
              record { kind = type; names = own-server s selected value asked own; dropped = refl },
            ))
      ]

  inform-Fits : HasType s dhcpinform → Ensures (Fits s) (dhcp_handle_inform e s)
  unfolding dhcp_handle_inform reply
  inform-Fits type =
      any-Ensures _
        (construct_dhcp_packet e dhcpack
          (change_socket_setup dhcp_server_ip_address (ntohl s.dhcp_recv.ciaddr) s))
        _ λ built run. (asks, inform type)

  dispatch-Fits : (m : ℕ) → HasType s m → Ensures (Fits s) (dispatch e m s)
  unfolding dispatch
  dispatch-Fits m type =
      let typed : (k : ℕ) → (m == k) ≡ true → HasType s k =
        λ k c. subst (HasType s) (==→eq m k c) type in
      elim (Bool-cases (m == dhcpdiscover)) [
        | inl c ↦ rw c (discover-Fits (typed dhcpdiscover c))
        | inr c₁ ↦ rw c₁ (elim (Bool-cases (m == dhcprequest)) [
          | inl c ↦ rw c (request-Fits (typed dhcprequest c))
          | inr c₂ ↦ rw c₂ (elim (Bool-cases (m == dhcprelease)) [
            | inl c ↦ rw c (release-Fits (typed dhcprelease c))
            | inr c₃ ↦ rw c₃ (elim (Bool-cases (m == dhcpinform)) [
              | inl c ↦ rw c (inform-Fits (typed dhcpinform c))
              | inr c₄ ↦ rw c₄ (inl refl)
            ])
          ])
        ])
      ]

-- The server answers a received datagram only if it is a request of a client, of one byte of message type,
-- and a discover, an inform, or a request that names this server. Where it does not answer, it drops
-- the lease of the sender's address as delete_lease does, and then the datagram is a release that names
-- this server, or its state stays as it is after the receipt.
pub handle-Fits : (e : Env) (s : Server) → Ensures (Fits s) (handle e s)
unfolding handle
handle-Fits e s = elim (Bool-cases (s.dhcp_recv.opcode == Protocol.bootp_message_type_request)) [
  | inr other ↦ rw other (inl refl)
  | inl asks ↦ rw asks (
      any-Ensures _ (get_dhcp_option s.dhcp_recv.options Protocol.option_dhcp_message_type none) _
        λ (n, value) got. elim (Bool-cases (n == 1)) [
          | inr long ↦ rw long (inl refl)
          | inl one ↦ rw one (
              any-Ensures _ (or_fault value) _ λ p there.
                any-Ensures _ (or_fault (get_elem? s.dhcp_recv.options p)) _ λ m byte.
                  dispatch-Fits e s
                    (==→eq s.dhcp_recv.opcode Protocol.bootp_message_type_request asks) m
                    (p, got ∙ pointed n p value one there, or_fault-ok _ byte))
        ])
]
