-- ===== src/Reply/Written.antt =====
-- The options that `write_options` leaves in the buffer.
use internet_applications.Base.{
  ℕ, ◌+◌, ◌^◌, ◌≤◌, ◌<◌, ◌≡◌, ◌≢◌, Option, some, List, [], ◌∷◌, ◌++◌, Bytes, ok, ◌==◌,
  if◌then◌else◌, get_elem?, length, arith, Bool-cases, inl, inr, ne→==,
}
use internet_applications.Words.{htonl, bytes32}
use internet_applications.Protocol
use internet_applications.Protocol.{dhcpnak, dhcpinform, dhcp_server_ip_address}
use internet_applications.Options.{append_option}
use internet_applications.Options.Scan.{Tlv, tlv, encode}
use internet_applications.Options.Fill.{wrote, wrote-nil, append_option-wrote}
use internet_applications.Reply.{write_options}

abbrev server_word : Bytes
server_word = bytes32 (htonl dhcp_server_ip_address)

abbrev server_id : Tlv
server_id = tlv Protocol.option_dhcp_server_identifier server_word

abbrev vendor : Tlv
vendor = tlv Protocol.option_vendor_class_identifier Protocol.dhcp_server_vendor_class_id

abbrev mask : Tlv
mask = tlv Protocol.option_subnet_mask (bytes32 (htonl Protocol.subnet_mask))

abbrev router : Tlv
router = tlv Protocol.option_router server_word

abbrev dns : Tlv
dns = tlv Protocol.option_domain_name_server server_word

abbrev lease_time : Tlv
lease_time =
    tlv Protocol.option_ip_address_lease_time (bytes32 (htonl Protocol.ip_address_lease_time))

abbrev renewal : Tlv
renewal = tlv Protocol.option_ip_t1_renewal_time (bytes32 (htonl Protocol.t1_renewal_time))

abbrev rebinding : Tlv
rebinding = tlv Protocol.option_ip_t2_rebind_time (bytes32 (htonl Protocol.t2_rebind_time))

abbrev the_end : Tlv
the_end = tlv Protocol.option_end (0 ∷ [])

abbrev kind : ℕ → Tlv
kind state = tlv Protocol.option_dhcp_message_type (state ∷ [])

-- Type, server identifier and vendor class; then the network's parameters; then the lease's times.
abbrev pub identity : ℕ → List Tlv
identity state = kind state ∷ server_id ∷ vendor ∷ []

abbrev pub network : ℕ → List Tlv
network state = kind state ∷ server_id ∷ vendor ∷ mask ∷ router ∷ dns ∷ []

abbrev pub refusal : ℕ → List Tlv
refusal state = identity state ++ the_end ∷ []

abbrev pub answer_without_times : ℕ → List Tlv
answer_without_times state = network state ++ the_end ∷ []

abbrev pub answer_with_times : ℕ → List Tlv
answer_with_times state = network state ++ lease_time ∷ renewal ∷ rebinding ∷ the_end ∷ []

module _ (options : Bytes) (size : length options ≡ Protocol.dhcp_max_option_len) where
  step :
      (os : List Tlv) (o : Tlv)
      → length o.value < 2 ^ 8
      → length (encode os) + 2 + length o.value ≤ Protocol.dhcp_max_option_len
      → append_option (wrote os options) o.code o.value ≡ ok (wrote (os ++ o ∷ []) options)
  step os o short room =
      append_option-wrote os options o.code o.value short (omega arith) (omega arith)

  -- A refusal names the server and nothing more.
  pub write_options-nak :
      (msg_type : Option ℕ)
      → write_options dhcpnak msg_type options ≡ ok (wrote (refusal dhcpnak) options)
  unfolding write_options bytes32
  write_options-nak msg_type = rw (← wrote-nil options) (
      rw (
        step [] (kind dhcpnak) (omega arith) (omega arith),
        step (kind dhcpnak ∷ []) server_id (omega arith) (omega arith),
        step (kind dhcpnak ∷ server_id ∷ []) vendor (omega arith) (omega arith),
        step (identity dhcpnak) the_end (omega arith) (omega arith),
      ))

  -- Any other reply has the network's parameters, and the times unless the byte that `msg_type`
  -- points at, in the buffer as it is after six options, is that of an inform.
  pub write_options-answer :
      (state p m : ℕ)
      → state ≢ dhcpnak
      → get_elem? (wrote (network state) options).0 p ≡ some m
      → write_options state (some p) options
        ≡ ok (
            wrote
              (if m == dhcpinform then answer_without_times state else answer_with_times state)
              options)
  unfolding write_options bytes32
  write_options-answer state p m ne byte = rw (← wrote-nil options) (
      rw
        (
          step [] (kind state) (omega arith) (omega arith),
          step (kind state ∷ []) server_id (omega arith) (omega arith),
          step (kind state ∷ server_id ∷ []) vendor (omega arith) (omega arith),
          ne→== state dhcpnak ne,
          step (identity state) mask (omega arith) (omega arith),
          step (identity state ++ mask ∷ []) router (omega arith) (omega arith),
          step (identity state ++ mask ∷ router ∷ []) dns (omega arith) (omega arith),
          byte,
        )
        (elim (Bool-cases (m == dhcpinform)) [
          | inl e ↦ rw (e, step (network state) the_end (omega arith) (omega arith))
          | inr e ↦ rw (
            e,
            step (network state) lease_time (omega arith) (omega arith),
            step (network state ++ lease_time ∷ []) renewal (omega arith) (omega arith),
            step (network state ++ lease_time ∷ renewal ∷ []) rebinding (omega arith) (omega arith),
            step (network state ++ lease_time ∷ renewal ∷ rebinding ∷ []) the_end (omega arith)
                (omega arith),
          )
        ]))
