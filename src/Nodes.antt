-- ===== src/Nodes.antt =====
-- The lease list of dhcp-server.c in memory: the nodes of `struct lease_t` behind `lease_head`, and the
-- loops that walk over the pointers. Memory is held by field: `next` and `lease` give the two parts of a
-- node, and nothing at an address where no node is allocated.
pub mod Links
pub mod Walk
pub mod Lists
pub mod Changes
pub mod Refined
pub mod Allocated
pub mod Added
pub mod Deleted
pub mod Calls
pub mod Sequence
use internet_applications.Base.{
  ℕ, zero, suc, ◌+◌, ◌-◌, ◌%◌, ◌^◌, Bool, true, false, ◌||◌, ◌&&◌, Option, none, some, List, [],
  ◌∷◌, ◌++◌, Bytes, fault, out_of_fuel, ok, ◌==◌, ltb, if◌then◌else◌, take, ℤ, pos, negsuc,
}
use internet_applications.Words.{ntohl}
use internet_applications.Protocol.{
  hardware_address_length, ip_address_pool_start, ip_address_pool_amount, ip_address_lease_time,
}
use internet_applications.Lease.{Lease, Random, same_mac, drawn}
use internet_applications.Exec.{Exec, pure, gets, modify, ◌>>=◌, ◌>>◌}

-- A line on the terminal: the number of leases, or the address and the hardware address of a lease.
pub data Line : Type 0 where
  number : ℤ → Line
  entry : ℕ → Bytes → Line

pub record Store : Type 0 where
  pub next : ℕ → Option ℕ
  pub lease : ℕ → Option Lease
  pub lease_head : ℕ
  pub num_of_lease : ℤ
  pub printed : List Line

-- `malloc` gives 0 for NULL, or the address of a new node, and of the address the contents that the
-- memory has by chance. `fuel` bounds the rounds of a loop.
pub record Memory : Type 0 where
  pub malloc : (ℕ → Option ℕ) → ℕ
  pub left_next : ℕ → ℕ
  pub left_lease : ℕ → Lease
  pub fuel : ℕ

abbrev pub update {ℓ} : {A : Type ℓ} → (ℕ → A) → ℕ → A → ℕ → A
update f p v a = if p == a then v else f a

-- `p->next`, and the other fields of `*p`.
unfoldable pub load_next : ℕ → Exec Store ℕ
load_next p s = elim (s.next p) [ none ↦ fault | some q ↦ ok (some (q, s)) ]

unfoldable pub load_lease : ℕ → Exec Store Lease
load_lease p s = elim (s.lease p) [ none ↦ fault | some l ↦ ok (some (l, s)) ]

unfoldable pub store_next : ℕ → ℕ → Exec Store (Unit {0})
store_next p q s = elim (s.next p) [
  | none ↦ fault
  | some v ↦ ok (some (tt, record s { next = update s.next p (some q) }))
]

-- An assignment to one of the other fields of `*p`.
unfoldable pub change_lease : ℕ → (Lease → Lease) → Exec Store (Unit {0})
change_lease p f s = elim (s.lease p) [
  | none ↦ fault
  | some l ↦ ok (some (tt, record s { lease = update s.lease p (some (f l)) }))
]

unfoldable pub free : ℕ → Exec Store (Unit {0})
free p s = elim (s.next p) [
  | none ↦ fault
  | some v ↦ ok (some (tt, record s { next = update s.next p none; lease = update s.lease p none }))
]

unfoldable pub print : Line → Exec Store (Unit {0})
print l = modify (λ s. record s { printed = s.printed ++ l ∷ [] })

-- `n++`, `n--` and `n > k` on an `int`.
abbrev pub increment : ℤ → ℤ
increment (pos n) = pos (suc n)
increment (negsuc zero) = pos 0
increment (negsuc (suc n)) = negsuc n

abbrev pub decrement : ℤ → ℤ
decrement (pos zero) = negsuc 0
decrement (pos (suc n)) = pos n
decrement (negsuc n) = negsuc (suc n)

abbrev pub exceeds : ℤ → ℕ → Bool
exceeds (pos n) k = ltb k n
exceeds (negsuc n) k = false

-- `while (lease->next) { if (test) …; lease = lease->next; }`: where the loop is left, and whether it is by
-- the test, which reads `lease->next`.
unfoldable pub walk : (Lease → Bool) → (fuel lease : ℕ) → Exec Store (ℕ × Bool)
walk test zero lease = λ s. out_of_fuel
walk test (suc fuel) lease = do
  q ← load_next lease
  if q == 0 then pure (lease, false) else do
    l ← load_lease q
    let further = walk test fuel q
    if test l then pure (lease, true) else further

-- The loop over `debug_lease`.
unfoldable pub print_leases : (fuel debug_lease : ℕ) → Exec Store (Unit {0})
print_leases zero debug_lease = λ s. out_of_fuel
print_leases (suc fuel) debug_lease = do
  q ← load_next debug_lease
  let further = print_leases fuel q
  if q == 0 then pure tt else do l ← load_lease q; print (entry l.addr l.chaddr); further

-- What `check_ipaddr` returns of the lease that has the address.
abbrev pub judge : (now : ℕ) → (mac : Bytes) → Lease → ℤ
judge now mac l =
    if ltb now (l.time_stamp + ip_address_lease_time)
    then if same_mac l.chaddr mac then pos 1 else negsuc 0
    else pos 1

module _ (m : Memory) where
  unfoldable pub malloc : Exec Store ℕ
  malloc s =
      let p = m.malloc s.next in
      if p == 0
      then ok (some (0, s))
      else ok (
          some (
            p,
            record s {
              next = update s.next p (some (m.left_next p));
              lease = update s.lease p (some (m.left_lease p));
            },
          ))

  -- The first lines of `dhcp_setup`: the dummy head.
  unfoldable pub make_head : Exec Store (Unit {0})
  make_head = do p ← malloc; modify (λ s. record s { lease_head = p }); store_next p 0

  unfoldable pub check_ipaddr : (now : ℕ) → (ip : ℕ) → (mac : Bytes) → Exec Store ℤ
  check_ipaddr now ip mac =
      let req_ip = ntohl ip in
      if ltb req_ip ip_address_pool_start
        || ltb (ip_address_pool_start + ip_address_pool_amount - 1) req_ip
      then pure (negsuc 0)
      else do
        head ← gets (λ s. s.lease_head)
        (lease, met) ← walk (λ l. l.addr == req_ip) m.fuel head
        if met
            then (do q ← load_next lease; l ← load_lease q; pure (judge now mac l))
            else pure (pos 1)

  -- The loop at `outer:`, from the draw `k`.
  unfoldable pub draw : ℕ → (ℕ → ℕ) → ℕ → Exec Store ℕ
  draw zero rand k = λ s. out_of_fuel
  draw (suc fuel) rand k = do
    head ← gets (λ s. s.lease_head)
    (lease, met) ← walk (λ l. l.addr == drawn rand k) m.fuel head
    let again = draw fuel rand (k + 1)
    if met then again else pure (drawn rand k)

  -- The result, and `*new_ip` if it was written.
  unfoldable pub allocate_ip : Random → (now seed_time : ℕ) → Bytes → Exec Store (ℤ × Option ℕ)
  allocate_ip r now seed_time mac = do
    head ← gets (λ s. s.lease_head)
    (lease, met) ← walk (λ l. same_mac l.chaddr mac) m.fuel head
    if met
        then (do
          q ← load_next lease
          change_lease q (λ l. record l { time_stamp = now })
          l ← load_lease q
          pure (pos 0, some l.addr))
        else do
          n ← gets (λ s. s.num_of_lease)
          if exceeds n (ip_address_pool_amount - 1)
              then pure (negsuc 0, none)
              else do a ← draw r.fuel (r.rand (seed_time % 2 ^ 32)) 0; pure (pos 0, some a)

  -- A new node at the end of the list.
  unfoldable pub append_lease : (now addr : ℕ) → (mac : Bytes) → Exec Store (Unit {0})
  append_lease now addr mac = do
    new_lease ← malloc
    change_lease new_lease (λ l. record l { time_stamp = now })
    change_lease new_lease (λ l. record l { addr = addr })
    change_lease new_lease (λ l. record l { chaddr = take hardware_address_length mac })
    store_next new_lease 0
    head ← gets (λ s. s.lease_head)
    (lease, met) ← walk (λ l. false) m.fuel head
    store_next lease new_lease
    modify (λ s. record s { num_of_lease = increment s.num_of_lease })
    n ← gets (λ s. s.num_of_lease)
    print (number n)
    print_leases m.fuel head

  -- `*new_ip` is in network order.
  unfoldable pub add_lease : (now : ℕ) → (new_ip : ℕ) → (mac : Bytes) → Exec Store (Unit {0})
  add_lease now new_ip mac = do
    head ← gets (λ s. s.lease_head)
    (lease, met) ← walk (λ l. l.addr == ntohl new_ip) m.fuel head
    if met
        then (do q ← load_next lease; change_lease q (λ l. record l { time_stamp = now }))
        else append_lease now (ntohl new_ip) mac

  unfoldable pub delete_lease : (ip : ℕ) → (mac : Bytes) → Exec Store (Unit {0})
  delete_lease ip mac = do
    head ← gets (λ s. s.lease_head)
    (lease, met) ← walk (λ l. (l.addr == ntohl ip) && same_mac l.chaddr mac) m.fuel head
    if met
        then (do
          temp ← load_next lease
          after ← load_next temp
          store_next lease after
          free temp
          modify (λ s. record s { num_of_lease = decrement s.num_of_lease })
          n ← gets (λ s. s.num_of_lease)
          print (number n))
        else print_leases m.fuel head
