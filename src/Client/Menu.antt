-- ===== src/Client/Menu.antt =====
-- dhcp-client.c: the modes of the client, its menu, and the handler of the alarm.
use internet_applications.Base.{
  ℕ, zero, suc, not, ◌+◌, ◌-◌, ◌%◌, ◌^◌, Option, none, some, List, [], ◌∷◌, ◌==◌, if◌then◌else◌, ℤ,
  pos, negsuc,
}
use internet_applications.Packet.{Packet}
use internet_applications.Exec.{Exec, ◌>>=◌, ◌>>◌, pure, gets, modify}
use internet_applications.Client.{
  Device, Client, set_timer, get_ip_address, dhcp_discover, dhcp_release, dhcp_inform, dhcp_renew,
  dhcp_rebind,
}
use internet_applications.Client.Interface.{set_alarm, setup_interface, setup_interface_release}

-- What happens while the menu waits: a line, by its first byte, or the alarm.
pub data Event : Type 0 where
  line : ℕ → Event
  expiry : Event

module _ {K : Type 0} (dev : Device K) (stack : Packet) where
  -- What a mode does with the result of its exchange.
  unfoldable pub settle :
      (accept : Packet → Exec (Client K) (Unit {0})) (refuse : Exec (Client K) (Unit {0}))
      → ℤ × Option Packet
      → Exec (Client K) (Unit {0})
  settle accept refuse (pos zero, some p) = accept p
  settle accept refuse (pos zero, none) = pure tt
  settle accept refuse (pos (suc n), p) = refuse
  settle accept refuse (negsuc n, p) = pure tt

  unfoldable pub discover : Exec (Client K) (Unit {0})
  discover = do
    s ← gets (λ s. s)
    if not (get_ip_address dev s.device == 0)
        then pure tt
        else dhcp_discover dev stack stack
          >>= settle (λ p. setup_interface dev p >> set_alarm p) (setup_interface_release dev)

  unfoldable pub release : Exec (Client K) (Unit {0})
  release = set_timer 0 >> dhcp_release dev >> setup_interface_release dev

  unfoldable pub inform : Exec (Client K) (Unit {0})
  inform = dhcp_inform dev stack >>= settle (λ p. pure tt) (pure tt)

  unfoldable pub renew : Exec (Client K) (Unit {0})
  renew = dhcp_renew dev stack >>= settle set_alarm (setup_interface_release dev >> discover)

  unfoldable pub rebind : Exec (Client K) (Unit {0})
  rebind = dhcp_rebind dev stack >>= settle set_alarm (setup_interface_release dev >> discover)

  -- The times are `uint32_t`, so their difference wraps around.
  unfoldable pub lease_time_out : Exec (Client K) (Unit {0})
  lease_time_out = do
    s ← gets (λ s. s)
    if not (s.t1_time == 0)
        then (do
          _ ← set_timer ((s.t2_time + 2 ^ 32 - s.t1_time) % 2 ^ 32)
          _ ← modify (λ s. record s { t1_time = 0 })
          renew)
        else if not (s.t2_time == 0)
        then (do
          _ ← set_timer ((s.lease_time + 2 ^ 32 - s.t2_time) % 2 ^ 32)
          _ ← modify (λ s. record s { t2_time = 0 })
          rebind)
        else setup_interface_release dev

  -- The alarm that is pending runs out.
  unfoldable pub expire : Exec (Client K) (Unit {0})
  expire = do s ← gets (λ s. s); if s.alarm == 0 then pure tt else set_timer 0 >> lease_time_out

  unfoldable pub choose : ℕ → Exec (Client K) (Unit {0})
  choose c =
      if c == 49
      then discover
      else if c == 50
      then release
      else if c == 51
      then inform
      else if c == 52
      then renew
      else if c == 53
      then rebind
      else pure tt

  -- The events until the menu is left.
  unfoldable pub interact : List Event → Exec (Client K) (Unit {0})
  interact [] = pure tt
  interact (expiry ∷ events) = expire >> interact events
  interact (line c ∷ events) =
      let rest = interact events in if c == 48 then pure tt else choose c >> rest
