-- ===== src/Tests/Table.antt =====
-- The lease table at concrete leases.
use internet_applications.Base.{
  ℕ, ◌≡◌, refl, none, some, Option, true, false, ok, arith, ℤ, pos, is_positive,
}
use mathlib.Core.Logic.{◌↔◌}
use internet_applications.Words.{htonl, ntohl}
use internet_applications.Lease.{
  Leases, check_ipaddr, same_mac, add_lease, delete_lease, allocate_ip, reuse_lease, draw,
}
use internet_applications.Lease.Table.{IsTable, lookup}
use internet_applications.Lease.Lookup.{lookup-add_lease}
use internet_applications.Lease.Release.{lookup-delete_lease}
use internet_applications.Lease.Allocate.{Covers, allocate_ip_total, Allocated}
use internet_applications.Lease.Check.{IsFree, check_ipaddr_iff, takeover_keeps_mac}
use internet_applications.Tests.{ann, bob, first_ip, first_word, anns, one_lease, counting}

one_lease-IsTable : IsTable one_lease
one_lease-IsTable = record { counted = refl; unique = (refl, tt) }

check_ipaddr_iff_example :
    (is_positive (check_ipaddr 110 one_lease first_word ann) ≡ true)
    ↔ IsFree 110 one_lease (ntohl first_word) ann
check_ipaddr_iff_example = check_ipaddr_iff 110 one_lease first_word ann

takeover_keeps_mac_example :
    let t' = add_lease 1000 one_lease (htonl first_ip) bob in
    (is_positive (check_ipaddr 1000 one_lease (htonl first_ip) bob) ≡ true)
    × (is_positive (check_ipaddr 1010 t' (htonl first_ip) bob) ≡ false)
    × (is_positive (check_ipaddr 1010 t' (htonl first_ip) ann) ≡ true)
unfolding same_mac
takeover_keeps_mac_example =
    takeover_keeps_mac 1000 1010 one_lease first_ip bob anns (omega arith)
      (omega arith, omega arith) refl (omega arith) refl (omega arith) (omega arith)

lookup-add_lease_example :
    lookup first_ip (add_lease 200 one_lease first_word bob).lease_head
    ≡ some (record { time_stamp = 200; addr = first_ip; chaddr = ann })
unfolding htonl
lookup-add_lease_example = lookup-add_lease 200 one_lease first_word bob first_ip

lookup-delete_lease_example :
    lookup first_ip (delete_lease one_lease first_word ann).lease_head ≡ none
unfolding htonl same_mac
lookup-delete_lease_example =
    lookup-delete_lease one_lease first_word ann first_ip one_lease-IsTable

abbrev second_ip : Option ℕ
second_ip = some 3232235523

-- The first draw is taken, so the second address of the pool is given.
second_draw : allocate_ip counting 200 7 one_lease bob ≡ ok (one_lease, pos 0, second_ip)
unfolding allocate_ip reuse_lease draw same_mac
second_draw = refl

pub counting-Covers : Covers counting
counting-Covers seed m small = (m, omega arith, omega arith)

allocate_ip_total_example :
    (t' : Leases) × (res : ℤ) × (new_ip : Option ℕ) × (allocate_ip counting 200 7 one_lease bob
      ≡ ok (t', res, new_ip))
    × Allocated one_lease bob res new_ip
allocate_ip_total_example =
    allocate_ip_total counting 200 7 one_lease bob counting-Covers one_lease-IsTable
