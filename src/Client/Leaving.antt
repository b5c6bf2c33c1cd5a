-- ===== src/Client/Leaving.antt =====
-- The mode of the client that gives its address back.
use internet_applications.Base.{◌%◌, ◌^◌, suc, ◌≡◌, refl, some, ◌∷◌, Bytes, ok, take}
use internet_applications.Words.{htonl, ntohl}
use internet_applications.Protocol.{dhcprelease, inaddr_any}
use internet_applications.Packet.{Packet, pack}
use internet_applications.Client.{
  Device, Client, set_timer, new_xid, change_socket_setup, sendto, send_packet, get_ip_address,
  dhcp_release,
}
use internet_applications.Client.Interface.{change, setup_interface_release}
use internet_applications.Client.Menu.{release}
use internet_applications.Client.Timers.{built, construct_dhcp_packet-built}

-- On an interface that has a hardware address, a release always succeeds. It cancels the alarm, sends
-- one packet, of the type of a release, to the server that was chosen, and then sets the address of
-- the interface to 0.0.0.0; it waits for no answer.
pub release_leaves :
    {K : Type 0} (dev : Device K) (stack : Packet) (mac : Bytes) (s : Client K)
    → dev.get_hwaddr s.device ≡ some mac
    → let asking = record s {
      alarm = 0;
      xid = s.rand s.calls % 2 ^ 32;
      calls = suc s.calls;
      client_addr = htonl (ntohl (get_ip_address dev s.device));
      server_addr = htonl (ntohl s.dhcp_server_identifier);
    } in
      let (p, size) = built dev dhcprelease mac asking in
      release dev stack s
      ≡ ok (
          some (
            tt,
            record asking {
              sent =
                  record {
                    to_addr = htonl (ntohl s.dhcp_server_identifier);
                    payload = take size (pack p);
                  }
                  ∷ s.sent;
              device = (dev.set_addr (htonl inaddr_any) s.device).0;
            },
          ))
unfolding release set_timer dhcp_release new_xid change_socket_setup send_packet sendto
    setup_interface_release change
release_leaves dev stack mac s named =
    let asking = record s {
      alarm = 0;
      xid = s.rand s.calls % 2 ^ 32;
      calls = suc s.calls;
      client_addr = htonl (ntohl (get_ip_address dev s.device));
      server_addr = htonl (ntohl s.dhcp_server_identifier);
    } in
    rw (construct_dhcp_packet-built dev dhcprelease mac asking named) refl
