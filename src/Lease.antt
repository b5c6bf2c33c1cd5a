-- ===== src/Lease.antt =====
-- The lease list of dhcp-server.c: `check_ipaddr`, `allocate_ip`, `add_lease` and `delete_lease`.
-- The nodes behind the dummy head are a list; `num_of_lease` stands beside it. `now` is what the
-- function's call of `time(NULL)` returns.
pub mod Table
pub mod Lookup
pub mod Release
pub mod Range
pub mod Allocate
pub mod Check
use internet_applications.Base.{
  ℕ, zero, suc, ◌+◌, ◌-◌, ◌%◌, ◌^◌, Bool, true, false, ◌||◌, ◌&&◌, Option, none, some, List, [],
  ◌∷◌, ◌++◌, Bytes, Run, ok, out_of_fuel, ◌>>=◌, ◌==◌, ltb, if◌then◌else◌, take, same_prefix, ℤ,
  pos, negsuc,
}
use internet_applications.Words.{ntohl}
use internet_applications.Protocol.{
  hardware_address_length, ip_address_pool_start, ip_address_pool_amount, ip_address_lease_time,
}

-- `struct lease_t` without its link. `addr` is in host order. Of `chaddr` only the bytes that are
-- copied in are kept.
pub record Lease : Type 0 where
  pub time_stamp : ℕ
  pub addr : ℕ
  pub chaddr : Bytes

-- `lease_head` and `num_of_lease`.
pub record Leases : Type 0 where
  pub lease_head : List Lease
  pub num_of_lease : ℕ

-- `memcmp(a, b, HARDWARE_ADDRESS_LENGTH) == 0`
unfoldable pub same_mac : Bytes → Bytes → Bool
same_mac a b = same_prefix hardware_address_length a b

unfoldable pub check_lease : ℕ → ℕ → Bytes → List Lease → ℤ
check_lease now req_ip mac [] = pos 1
check_lease now req_ip mac (l ∷ ls) =
    if l.addr == req_ip
    then if ltb now (l.time_stamp + ip_address_lease_time)
      then if same_mac l.chaddr mac then pos 1 else negsuc 0
      else pos 1
    else check_lease now req_ip mac ls

-- `*ip` is in network order.
unfoldable pub check_ipaddr : (now : ℕ) → Leases → (ip : ℕ) → (mac : Bytes) → ℤ
check_ipaddr now t ip mac =
    let req_ip = ntohl ip in
    if ltb req_ip ip_address_pool_start
      || ltb (ip_address_pool_start + ip_address_pool_amount - 1) req_ip
    then negsuc 0
    else check_lease now req_ip mac t.lease_head

-- The first loop of `allocate_ip`: the address of the first lease with the MAC, which is stamped.
unfoldable pub reuse_lease : ℕ → Bytes → List Lease → Option (ℕ × List Lease)
reuse_lease now mac [] = none
reuse_lease now mac (l ∷ ls) =
    if same_mac l.chaddr mac
    then some (l.addr, record l { time_stamp = now } ∷ ls)
    else elim (reuse_lease now mac ls) [ none ↦ none | some (a, ls') ↦ some (a, l ∷ ls') ]

abbrev pub has_addr : ℕ → List Lease → Bool
has_addr a [] = false
has_addr a (l ∷ ls) = (l.addr == a) || has_addr a ls

abbrev pub drawn : (ℕ → ℕ) → ℕ → ℕ
drawn rand k = (ip_address_pool_start + rand k % ip_address_pool_amount) % 2 ^ 32

-- The loop at `outer:`, from the draw `k`.
unfoldable pub draw : ℕ → (ℕ → ℕ) → ℕ → List Lease → Run ℕ
draw zero rand k ls = out_of_fuel
draw (suc fuel) rand k ls =
    let again = draw fuel rand (k + 1) ls in
    if has_addr (drawn rand k) ls then again else ok (drawn rand k)

-- What `srand` and `rand` give: the draws of a seed. `fuel` bounds the draws of one call.
pub record Random : Type 0 where
  pub rand : ℕ → ℕ → ℕ
  pub fuel : ℕ

-- Returns the leases, the result, and `*new_ip` if it was written.
unfoldable pub allocate_ip :
    Random → (now seed_time : ℕ) → Leases → Bytes → Run (Leases × ℤ × Option ℕ)
allocate_ip r now seed_time t mac = elim (reuse_lease now mac t.lease_head) [
  | some (a, ls) ↦ ok (record t { lease_head = ls }, pos 0, some a)
  | none ↦
      if ltb (ip_address_pool_amount - 1) t.num_of_lease
      then ok (t, negsuc 0, none)
      else (draw r.fuel (r.rand (seed_time % 2 ^ 32)) 0 t.lease_head >>= λ a. ok (t, pos 0, some a))
]

-- The first loop of `add_lease`: the first lease of the address is stamped.
unfoldable pub stamp_lease : ℕ → ℕ → List Lease → Option (List Lease)
stamp_lease now a [] = none
stamp_lease now a (l ∷ ls) =
    if l.addr == a
    then some (record l { time_stamp = now } ∷ ls)
    else elim (stamp_lease now a ls) [ none ↦ none | some ls' ↦ some (l ∷ ls') ]

-- `*new_ip` is in network order. The new node goes to the end.
unfoldable pub add_lease : (now : ℕ) → Leases → (new_ip : ℕ) → (mac : Bytes) → Leases
add_lease now t new_ip mac = elim (stamp_lease now (ntohl new_ip) t.lease_head) [
  | some ls ↦ record t { lease_head = ls }
  | none ↦ record {
    lease_head =
        t.lease_head
        ++ record {
          time_stamp = now;
          addr = ntohl new_ip;
          chaddr = take hardware_address_length mac;
        }
          ∷ [];
    num_of_lease = t.num_of_lease + 1;
  }
]

-- The loop of `delete_lease`: `none` if it unlinks nothing.
unfoldable pub unlink_lease : ℕ → Bytes → List Lease → Option (List Lease)
unlink_lease a mac [] = none
unlink_lease a mac (l ∷ ls) =
    if (l.addr == a) && same_mac l.chaddr mac
    then some ls
    else elim (unlink_lease a mac ls) [ none ↦ none | some ls' ↦ some (l ∷ ls') ]

unfoldable pub delete_lease : Leases → (ip : ℕ) → (mac : Bytes) → Leases
delete_lease t ip mac = elim (unlink_lease (ntohl ip) mac t.lease_head) [
  | some ls ↦ record { lease_head = ls; num_of_lease = t.num_of_lease - 1 }
  | none ↦ t
]
