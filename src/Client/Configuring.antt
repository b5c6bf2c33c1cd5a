-- ===== src/Client/Configuring.antt =====
-- What the acknowledgement of the server makes of the interface.
use internet_applications.Base.{
  ℕ, ◌≡◌, refl, not, Bool-cases, inl, inr, some, Bytes, ok, if◌then◌else◌, arith,
}
use internet_applications.Words.{htonl}
use internet_applications.Protocol
use internet_applications.Protocol.{dhcpack, dhcp_server_ip_address}
use internet_applications.Options.Fill.{wrote}
use internet_applications.Packet.{Packet}
use internet_applications.Reply.Written.{answer_with_times}
use internet_applications.Client.{Device, Client}
use internet_applications.Client.Interface.{change, setup_interface}
use internet_applications.Client.Reading.{acked_word}

module _ {K : Type 0} (dev : Device K) where
  abbrev masked : K → K
  masked k =
      if not (dev.set_netmask (htonl Protocol.subnet_mask) k).1
      then (dev.set_netmask (htonl Protocol.subnet_mask) k).0
      else (dev.add_route (htonl dhcp_server_ip_address)
          (dev.set_netmask (htonl Protocol.subnet_mask) k).0).0

  -- The interface with the address `a`, and then the mask and the route of the server's network, until
  -- one step fails.
  abbrev pub configured : (a : ℕ) → K → K
  configured a k =
      if not (dev.set_addr a k).1 then (dev.set_addr a k).0 else masked (dev.set_addr a k).0

  pub setup_interface-acked :
      (p : Packet) (s : Client K) (old : Bytes)
      → p.options ≡ (wrote (answer_with_times dhcpack) old).0
      → setup_interface dev p s ≡ ok (some (tt, record s { device = configured p.yiaddr s.device }))
  unfolding setup_interface change
  setup_interface-acked p s old written =
      let mask =
        acked_word p old Protocol.option_subnet_mask Protocol.subnet_mask written (omega arith)
          refl in
      let router =
        acked_word p old Protocol.option_router dhcp_server_ip_address written (omega arith) refl in
      let k₁ = (dev.set_addr p.yiaddr s.device).0 in
      elim (Bool-cases (dev.set_addr p.yiaddr s.device).1) [
        | inr failed ↦ rw failed refl
        | inl addressed ↦ elim (Bool-cases (dev.set_netmask (htonl Protocol.subnet_mask) k₁).1) [
          | inr failed ↦ rw (addressed, mask, failed) refl
          | inl done ↦ rw (addressed, mask, done, router) refl
        ]
      ]
