-- ===== src/Server/Renewing.antt =====
-- What the server does with a DHCPREQUEST that names it, of a client that has its address.
use internet_applications.Base.{
  ℕ, ◌≡◌, ◌≢◌, refl, ap, sym, ◌∙◌, none, some, ok, arith, ne→==, ◌==◌, if◌then◌else◌,
}
use internet_applications.Words.{htonl, ntohl, htonl-htonl, bytes32}
use internet_applications.Protocol.{dhcpack, inaddr_any, dhcp_server_ip_address}
use internet_applications.Options.Fill.{wrote}
use internet_applications.Lease.{Lease, Leases, same_mac}
use internet_applications.Lease.Table.{lookup, find_mac}
use internet_applications.Lease.Lookup.{stamped}
use internet_applications.Lease.Check.{IsFree, check_ipaddr_iff}
use internet_applications.Reply.{Server, Env, set_yiaddr, change_socket_setup}
use internet_applications.Reply.Written.{answer_with_times}
use internet_applications.Reply.Built.{as_reply, with_options, construct_dhcp_packet-answer}
use internet_applications.Reply.Renewal.{choose_yiaddr_renews}
use internet_applications.Server.{reply, answer, dhcp_handle_request}
use internet_applications.Server.Pool.{IsPooled}
use internet_applications.Server.Offering.{find_mac-lookup}
use internet_applications.Server.Request.{Asks}

-- The table with a new stamp on the lease `l`.
abbrev pub Stamps : ℕ → Lease → (old new : Leases) → Type 0
Stamps now l old new =
    (b : ℕ)
    → lookup b new.lease_head ≡ (
        if l.addr == b
        then elim (lookup b old.lease_head) [ some m ↦ some (stamped now m) | none ↦ none ]
        else lookup b old.lease_head)

module _ (e : Env) (s : Server) (q : Asks s) (pool : IsPooled s.leases) (l : Lease)
    (known : find_mac s.dhcp_recv.chaddr s.leases.lease_head ≡ some l)
    (own : s.dhcp_recv.ciaddr ≡ htonl l.addr) where
  abbrev pub to_it : Server
  to_it = change_socket_setup dhcp_server_ip_address (ntohl s.dhcp_recv.ciaddr) s

  own-IsFree : IsFree e.check_time s.leases (ntohl s.dhcp_recv.ciaddr) s.dhcp_recv.chaddr
  own-IsFree =
      let (there, mine) =
        find_mac-lookup s.dhcp_recv.chaddr s.leases.lease_head l pool.table.unique known in
      let inside = pool.pooled l.addr l there in
      let host : ntohl s.dhcp_recv.ciaddr ≡ l.addr =
        ap ntohl own ∙ htonl-htonl l.addr (omega (arith, inside.1)) in
      record {
        pooled = rw host inside;
        released = λ m found fresh.
            let same : some m ≡ some l =
              sym found ∙ ap (λ b. lookup b s.leases.lease_head) host ∙ there in
            let same' : m ≡ l = cc in ap (λ x. same_mac x.chaddr s.dhcp_recv.chaddr) same' ∙ mine;
      }

  bound : s.dhcp_recv.ciaddr ≢ htonl inaddr_any
  unfolding htonl
  bound =
      let (there, mine) =
        find_mac-lookup s.dhcp_recv.chaddr s.leases.lease_head l pool.table.unique known in
      let inside = pool.pooled l.addr l there in
      λ zero_address. absurd (omega (arith, own, zero_address, inside.0, inside.1))

  -- A client that sends the address of its lease is acknowledged that address, by unicast, and the lease
  -- is stamped, whether or not it has run out.
  pub request_renewed :
      (leases : Leases) × (dhcp_handle_request e s
        ≡ ok (
            reply (
              with_options
                  (answer_with_times dhcpack)
                  (set_yiaddr (record (as_reply to_it) { leases = leases }) (htonl l.addr)),
              300,
            )))
      × Stamps e.stamp_time l s.leases leases
  unfolding dhcp_handle_request answer change_socket_setup wrote bytes32
  request_renewed =
      let good =
        (check_ipaddr_iff e.check_time s.leases s.dhcp_recv.ciaddr s.dhcp_recv.chaddr).1
          own-IsFree in
      let (leases, chose, stamps) =
        choose_yiaddr_renews e (as_reply to_it) bound l pool.table known in
      (
        leases,
        rw (q.selected, ne→== s.dhcp_recv.ciaddr (htonl inaddr_any) bound, good)
            (rw
              (construct_dhcp_packet-answer e to_it q.size dhcpack 1 2 dhcpack _ (omega arith) chose
                refl q.kind refl)
              refl),
        stamps,
      )
