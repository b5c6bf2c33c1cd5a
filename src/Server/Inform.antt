-- ===== src/Server/Inform.antt =====
-- What the server does with a DHCPINFORM.
use internet_applications.Base.{
  ℕ, ◌≡◌, refl, Option, none, some, ok, length, arith, Ensures-elim, bind-Ensures, take, drop,
}
use internet_applications.Words.{htonl, ntohl, bytes32}
use internet_applications.Protocol
use internet_applications.Protocol.{dhcpack, dhcpinform, inaddr_any, dhcp_server_ip_address}
use internet_applications.Options.{get_dhcp_option}
use internet_applications.Options.Fill.{wrote, get_dhcp_option-wrote}
use internet_applications.Lease.{add_lease}
use internet_applications.Lease.Table.{lookup}
use internet_applications.Lease.Lookup.{lookup-add_lease, added}
use internet_applications.Lease.Allocate.{InRange}
use internet_applications.Reply.{
  Server, Env, change_socket_setup, load_value, construct_dhcp_packet,
}
use internet_applications.Reply.Written.{answer_with_times}
use internet_applications.Reply.Built.{construct_dhcp_packet-ack, construct_dhcp_packet-Written}
use internet_applications.Server.{Sent, reply, dhcp_handle_inform}
use internet_applications.Server.Pool.{IsPooled}

module _ (e : Env) (s t : Server) (out : Option Sent) where
  -- An inform from a client without an address that requests an address outside the pool, if it is
  -- handled without a fault, adds the lease of that address: no check is made, and the leases leave
  -- the pool.
  pub inform_adds_unchecked :
      (n ip : ℕ) (value : Option ℕ)
      → s.dhcp_recv.ciaddr ≡ htonl inaddr_any
      → length s.dhcp_recv.options ≡ Protocol.dhcp_max_option_len
      → get_dhcp_option s.dhcp_recv.options Protocol.option_requested_ip none ≡ ok (n, value)
      → load_value s.dhcp_recv.options value ≡ ok ip
      → ¬ InRange (ntohl ip)
      → dhcp_handle_inform e s ≡ ok (t, out)
      → (t.leases ≡ add_lease e.stamp_time s.leases ip s.dhcp_recv.chaddr) × ¬ IsPooled t.leases
  unfolding dhcp_handle_inform change_socket_setup reply
  inform_adds_unchecked n ip value blank size got loaded outside run =
      let s₀ = change_socket_setup dhcp_server_ip_address (ntohl s.dhcp_recv.ciaddr) s in
      let same : t.leases ≡ add_lease e.stamp_time s.leases ip s.dhcp_recv.chaddr =
        Ensures-elim (λ r. r.0.leases ≡ add_lease e.stamp_time s.leases ip s.dhcp_recv.chaddr)
          (dhcp_handle_inform e s)
          (bind-Ensures _ _ (construct_dhcp_packet e dhcpack s₀) _
            (construct_dhcp_packet-ack e s₀ size n ip value blank got loaded)
            λ built made kept. kept)
          run in
      (
        same,
        λ pool.
            let a = ntohl ip in
            let l = added e.stamp_time a s.dhcp_recv.chaddr (lookup a s.leases.lease_head) in
            let there : lookup a t.leases.lease_head ≡ some l =
              rw same
                (ground (arith, lookup-add_lease e.stamp_time s.leases ip s.dhcp_recv.chaddr a)) in
            outside (pool.pooled a l there),
      )

  -- If the message type is the first option, as this project's client writes it, the reply overwrites
  -- it before it is read: an inform that is handled without a fault is answered with the lease time.
  pub inform_times :
      (n : ℕ)
      → length s.dhcp_recv.options ≡ Protocol.dhcp_max_option_len
      → get_dhcp_option s.dhcp_recv.options Protocol.option_dhcp_message_type none ≡ ok (n, some 2)
      → dhcp_handle_inform e s ≡ ok (t, out)
      → (p : ℕ) × (get_dhcp_option t.dhcp_recv.options Protocol.option_ip_address_lease_time none
          ≡ ok (4, some p))
        × (take 4 (drop p t.dhcp_recv.options) ≡ bytes32 (htonl Protocol.ip_address_lease_time))
  unfolding dhcp_handle_inform change_socket_setup reply bytes32 wrote
  inform_times n size got run =
      let s₀ = change_socket_setup dhcp_server_ip_address (ntohl s.dhcp_recv.ciaddr) s in
      let same : t.dhcp_recv.options ≡ (wrote (answer_with_times dhcpack) s.dhcp_recv.options).0 =
        Ensures-elim
          (λ r. r.0.dhcp_recv.options ≡ (wrote (answer_with_times dhcpack) s.dhcp_recv.options).0)
          (dhcp_handle_inform e s)
          (bind-Ensures _ _ (construct_dhcp_packet e dhcpack s₀) _
            (construct_dhcp_packet-Written e s₀ size dhcpack n 2 dhcpack (omega arith) (omega arith)
              got refl)
            λ built made kept. kept.0)
          run in
      rw same (
        get_dhcp_option-wrote (answer_with_times dhcpack) s.dhcp_recv.options
          (bytes32 (htonl Protocol.ip_address_lease_time)) Protocol.option_ip_address_lease_time
          none (omega arith) (omega arith) refl)
