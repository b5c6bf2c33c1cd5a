-- ===== src/Client/Interface.antt =====
-- dhcp-client.c: what an accepted reply does to the interface and to the timers.
use internet_applications.Base.{ℕ, Bool, not, ◌*◌, ◌/◌, Option, none, some, ok, if◌then◌else◌}
use internet_applications.Words.{htonl, ntohl}
use internet_applications.Protocol
use internet_applications.Protocol.{inaddr_any}
use internet_applications.Packet.{Packet}
use internet_applications.Request.{read_word}
use internet_applications.Exec.{Exec, ◌>>=◌, ◌>>◌, pure, lift, modify}
use internet_applications.Client.{Device, Client, set_timer}

-- A time of the reply, or the one computed from the lease time.
unfoldable pub time_or : ℕ → Option ℕ → ℕ
time_or t none = t
time_or t (some word) = ntohl word

module _ {K : Type 0} where
  -- A call of `ioctl` that changes the interface.
  unfoldable pub change : (K → K × Bool) → Exec (Client K) Bool
  change f s = let (k, done) = f s.device in ok (some (done, record s { device = k }))

  -- The two times before the end of the lease; a reply without them gets a half and seven eighths.
  unfoldable pub set_times : Packet → (lease : ℕ) → Exec (Client K) (Unit {0})
  set_times p lease = do
    t1 ← lift (read_word p.options Protocol.option_ip_t1_renewal_time)
    t2 ← lift (read_word p.options Protocol.option_ip_t2_rebind_time)
    let t1_time = time_or (lease / 2) t1
    let t2_time = time_or (lease / 8 * 7) t2
    _ ← modify (λ s. record s { lease_time = lease; t1_time = t1_time; t2_time = t2_time })
    set_timer t1_time

  unfoldable pub after_lease : Packet → Option ℕ → Exec (Client K) (Unit {0})
  after_lease p none = pure tt
  after_lease p (some word) = set_times p (ntohl word)

  -- No lease time leaves all as it was.
  unfoldable pub set_alarm : Packet → Exec (Client K) (Unit {0})
  set_alarm p = lift (read_word p.options Protocol.option_ip_address_lease_time) >>= after_lease p

module _ {K : Type 0} (dev : Device K) where
  -- The address of the reply, then its subnet mask and its router, until one step fails.
  unfoldable pub setup_interface : Packet → Exec (Client K) (Unit {0})
  setup_interface p = do
    addressed ← change (dev.set_addr p.yiaddr)
    if not addressed then pure tt else do
      mask ← lift (read_word p.options Protocol.option_subnet_mask)
      elim mask [
        | none ↦ pure tt
        | some m ↦ do
          masked ← change (dev.set_netmask m)
          if not masked then pure tt else do
            router ← lift (read_word p.options Protocol.option_router)
            elim router [ none ↦ pure tt | some r ↦ change (dev.add_route r) >> pure tt ]
      ]

  unfoldable pub setup_interface_release : Exec (Client K) (Unit {0})
  setup_interface_release = change (dev.set_addr (htonl inaddr_any)) >> pure tt
