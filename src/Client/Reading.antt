-- ===== src/Client/Reading.antt =====
-- The client's view of options that were written one behind the other.
use internet_applications.Base.{
  ℕ, ◌^◌, ◌<◌, ◌≡◌, ◌≢◌, refl, ◌∙◌, ap, none, some, List, Bytes, ok, arith,
}
use internet_applications.Words.{htonl, htonl-lt, htonl-htonl, bytes32, load32-bytes32}
use internet_applications.Protocol
use internet_applications.Protocol.{dhcpack}
use internet_applications.Packet.{Packet}
use internet_applications.Options.Scan.{Tlv, find, NoPad}
use internet_applications.Options.Fill.{wrote, get_dhcp_option-wrote}
use internet_applications.Reply.Written.{answer_with_times}
use internet_applications.Request.{read_option, read_word, load_word}
use internet_applications.Client.{Client, set_timer}
use internet_applications.Client.Interface.{set_alarm, set_times, after_lease, time_or}

read_word-wrote :
    (os : List Tlv) (old : Bytes) (t w : ℕ)
    → t ≢ 0
    → NoPad os
    → w < 2 ^ 32
    → find t os ≡ some (bytes32 w)
    → read_word (wrote os old).0 t ≡ ok (some w)
unfolding read_word read_option load_word bytes32
read_word-wrote os old t w ne pad short hit =
    let (p, found, bytes) = get_dhcp_option-wrote os old (bytes32 w) t none ne pad hit in
    rw (found) (rw (load32-bytes32 (wrote os old).0 p w short bytes) refl)

-- What the acknowledgement of the server makes of the client's timers.
abbrev pub armed : {K : Type 0} → Client K → Client K
armed s = record s {
  lease_time = Protocol.ip_address_lease_time;
  t1_time = Protocol.t1_renewal_time;
  t2_time = Protocol.t2_rebind_time;
  alarm = Protocol.t1_renewal_time;
}

times_pad : NoPad (answer_with_times dhcpack)
times_pad = (
  omega arith,
  (
    omega arith,
    (
      omega arith,
      (
        omega arith,
        (
          omega arith,
          (omega arith, (omega arith, (omega arith, (omega arith, (omega arith, tt))))),
        ),
      ),
    ),
  ),
)

-- Each option of an acknowledgement as the server writes it.
pub acked_word :
    (p : Packet) (old : Bytes) (t w : ℕ)
    → p.options ≡ (wrote (answer_with_times dhcpack) old).0
    → t ≢ 0
    → find t (answer_with_times dhcpack) ≡ some (bytes32 (htonl w))
    → read_word p.options t ≡ ok (some (htonl w))
acked_word p old t w written ne hit =
    ap (λ b. read_word b t) written
    ∙ read_word-wrote (answer_with_times dhcpack) old t (htonl w) ne times_pad (htonl-lt w) hit

-- The client takes the times of the lease from the options of the server's acknowledgement, whatever
-- the buffer held behind them, and starts the alarm of T1.
pub set_alarm-acked :
    {K : Type 0} (p : Packet) (s : Client K) (old : Bytes)
    → p.options ≡ (wrote (answer_with_times dhcpack) old).0
    → set_alarm p s ≡ ok (some (tt, armed s))
unfolding set_alarm after_lease set_times time_or set_timer
set_alarm-acked p s old written =
    rw
      (
        acked_word p old Protocol.option_ip_address_lease_time Protocol.ip_address_lease_time
            written (omega arith) refl,
        acked_word p old Protocol.option_ip_t1_renewal_time Protocol.t1_renewal_time written
            (omega arith) refl,
        acked_word p old Protocol.option_ip_t2_rebind_time Protocol.t2_rebind_time written
            (omega arith) refl,
        htonl-htonl Protocol.ip_address_lease_time (omega arith),
        htonl-htonl Protocol.t1_renewal_time (omega arith),
        htonl-htonl Protocol.t2_rebind_time (omega arith),
      )
      refl
