-- ===== src/Server/Release.antt =====
-- What the server does with a DHCPRELEASE, and with the datagrams that it only reports.
use internet_applications.Base.{
  ℕ, ◌≡◌, inl, inr, ◌&&◌, Option, none, some, ok, ◌==◌, if◌then◌else◌, arith, Bool-cases,
}
use internet_applications.Words.{ntohl}
use internet_applications.Lease.{same_mac, delete_lease}
use internet_applications.Lease.Table.{IsTable, lookup}
use internet_applications.Lease.Release.{lookup-delete_lease}
use internet_applications.Reply.{Server}
use internet_applications.Server.{selected_server, is_own, dhcp_handle_release}

-- On a well-formed table, a release whose server identifier can be read is not answered. If it names
-- this server, it drops the lease of its address, provided the sender's MAC address is recorded, and
-- no other; otherwise it changes no lease.
pub release_lem :
    (s : Server) (selected value : Option ℕ)
    → IsTable s.leases
    → selected_server s ≡ ok (selected, value)
    → (t : Server) × (dhcp_handle_release s ≡ ok (t, none))
      × ((b : ℕ)
          → lookup b t.leases.lease_head ≡ elim (lookup b s.leases.lease_head) [
            | none ↦ none
            | some l ↦
                if is_own selected
                  && ((ntohl s.dhcp_recv.ciaddr == b) && same_mac l.chaddr s.dhcp_recv.chaddr)
                then none
                else some l
          ])
unfolding dhcp_handle_release
release_lem s selected value h asked = elim (Bool-cases (is_own selected)) [
  | inl own ↦ (
    record s { leases = delete_lease s.leases s.dhcp_recv.ciaddr s.dhcp_recv.chaddr },
    rw (asked, own),
    λ b.
        ground (arith, own, lookup-delete_lease s.leases s.dhcp_recv.ciaddr s.dhcp_recv.chaddr b h),
  )
  | inr other ↦ (s, rw (asked, other), λ b. ground (arith, other))
]
