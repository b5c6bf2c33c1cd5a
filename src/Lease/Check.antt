-- ===== src/Lease/Check.antt =====
-- `check_ipaddr` against the map of leases, and what `add_lease` makes of an expired lease.
use internet_applications.Base.{
  ℕ, ◌+◌, ◌≤◌, ◌<◌, ◌^◌, ◌≡◌, refl, Bool, true, false, Option, none, some, List, [], ◌∷◌, Bytes,
  arith, ltb, if◌then◌else◌, is_positive, Option-cases, inl, inr, same_prefix_refl,
}
use mathlib.Core.Logic.{◌↔◌}
use internet_applications.Words.{htonl, ntohl, htonl-htonl}
use internet_applications.Protocol.{ip_address_lease_time}
use internet_applications.Lease.{Lease, Leases, same_mac, check_lease, check_ipaddr, add_lease}
use internet_applications.Lease.Table.{lookup}
use internet_applications.Lease.Lookup.{lookup-add_lease}
use internet_applications.Lease.Allocate.{InRange}

same_mac_refl : (mac : Bytes) → same_mac mac mac ≡ true
unfolding same_mac
same_mac_refl mac = same_prefix_refl 6 mac

-- An address may be granted to a client: it is in the pool, and its lease, if there is one, has run
-- out or is the client's.
pub record IsFree (now : ℕ) (t : Leases) (a : ℕ) (mac : Bytes) : Type 0 where
  pub pooled : InRange a
  pub released :
      (l : Lease)
      → lookup a t.lease_head ≡ some l
      → now < l.time_stamp + ip_address_lease_time
      → same_mac l.chaddr mac ≡ true

-- What the walk over the list says of the first lease of the address.
abbrev verdict : ℕ → Bytes → Option Lease → Bool
verdict now mac none = true
verdict now mac (some l) =
    if ltb now (l.time_stamp + ip_address_lease_time) then same_mac l.chaddr mac else true

check_lease-verdict :
    (now a : ℕ) (mac : Bytes) (ls : List Lease)
    → is_positive (check_lease now a mac ls) ≡ verdict now mac (lookup a ls)
unfolding check_lease
check_lease-verdict now a mac [] = refl
check_lease-verdict now a mac (l ∷ ls) = ground (arith, check_lease-verdict now a mac ls)

-- `check_ipaddr` is positive exactly when the address may be granted.
pub check_ipaddr_iff :
    (now : ℕ) (t : Leases) (ip : ℕ) (mac : Bytes)
    → (is_positive (check_ipaddr now t ip mac) ≡ true) ↔ IsFree now t (ntohl ip) mac
unfolding check_ipaddr
check_ipaddr_iff now t ip mac = (
  λ h. record {
    pooled = ground arith;
    released = λ l e fresh. ground (arith, check_lease-verdict now (ntohl ip) mac t.lease_head);
  },
  λ f. elim (Option-cases (lookup (ntohl ip) t.lease_head)) [
    | inl e ↦ ground (arith, f.pooled, check_lease-verdict now (ntohl ip) mac t.lease_head)
    | inr (l, e) ↦
        ground
          (arith, f.pooled, f.released l e, check_lease-verdict now (ntohl ip) mac t.lease_head)
  ],
)

-- A client that takes over an expired lease passes the check and is recorded by `add_lease` under
-- the MAC address of the old holder: until the new lease runs out its own renewals fail the check,
-- and the old holder passes it for the same address.
pub takeover_keeps_mac :
    (now later : ℕ) (t : Leases) (a : ℕ) (mac : Bytes) (l : Lease)
    → a < 2 ^ 32
    → InRange a
    → lookup a t.lease_head ≡ some l
    → l.time_stamp + ip_address_lease_time ≤ now
    → same_mac l.chaddr mac ≡ false
    → now ≤ later
    → later < now + ip_address_lease_time
    → let t' = add_lease now t (htonl a) mac in
      (is_positive (check_ipaddr now t (htonl a) mac) ≡ true)
      × (is_positive (check_ipaddr later t' (htonl a) mac) ≡ false)
      × (is_positive (check_ipaddr later t' (htonl a) l.chaddr) ≡ true)
unfolding check_ipaddr
takeover_keeps_mac now later t a mac l small pooled found expired other after before =
    let host : ntohl (htonl a) ≡ a = htonl-htonl a small in
    let t' = add_lease now t (htonl a) mac in
    let kept = lookup-add_lease now t (htonl a) mac a in
    (
      ground (arith, check_lease-verdict now a mac t.lease_head),
      ground (arith, kept, check_lease-verdict later a mac t'.lease_head),
      ground
          (arith, kept, same_mac_refl l.chaddr, check_lease-verdict later a l.chaddr t'.lease_head),
    )
