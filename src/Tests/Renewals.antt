-- ===== src/Tests/Renewals.antt =====
-- Requests from clients that have an address.
use internet_applications.Base.{ℕ, true, false, ◌≡◌, refl, ok, arith}
use internet_applications.Words.{htonl}
use internet_applications.Protocol.{dhcpack}
use internet_applications.Lease.{has_addr, allocate_ip, reuse_lease, draw}
use internet_applications.Lease.Allocate.{InRange}
use internet_applications.Reply.{Server, set_yiaddr, allocate, choose_yiaddr}
use internet_applications.Reply.Renewal.{choose_yiaddr_unrecorded}
use internet_applications.Tests.{first_word, no_leases, env, packet, wanting, serving}

-- A client at 192.168.0.5 that the table does not know.
abbrev forgotten : Server
forgotten = serving no_leases (packet 83929280 (wanting 3))

forgotten_run : choose_yiaddr env dhcpack forgotten ≡ ok (set_yiaddr forgotten first_word, true)
unfolding choose_yiaddr allocate allocate_ip reuse_lease draw htonl
forgotten_run = refl

choose_yiaddr_unrecorded_example :
    (no_leases ≡ no_leases)
    × (a : ℕ) × (first_word ≡ htonl a)
    × InRange a
    × (has_addr a no_leases.lease_head ≡ false)
unfolding htonl
choose_yiaddr_unrecorded_example =
    choose_yiaddr_unrecorded env forgotten (omega arith) (set_yiaddr forgotten first_word) refl
      forgotten_run
