-- ===== src/Nodes/Allocated.antt =====
-- The allocation of an address, in memory and on the table.
use internet_applications.Base.{
  ℕ, zero, suc, ◌+◌, ◌-◌, ◌%◌, ◌^◌, ◌<◌, ◌≡◌, refl, sym, ap, ◌∙◌, Bool, true, false, Option, none,
  some, ◌∷◌, ◌++◌, Bytes, ok, length, arith, ltb, inl, inr, Bool-cases, Run-cases, ℤ, pos,
}
use mathlib.Core.Path.{subst}
use internet_applications.Protocol.{ip_address_pool_amount}
use internet_applications.Lease
use internet_applications.Lease.{
  Lease, Leases, Random, same_mac, drawn, has_addr, reuse_lease, stamp_lease, unlink_lease,
}
use internet_applications.Lease.Lookup.{stamped}
use internet_applications.Nodes
use internet_applications.Nodes.{
  Store, Memory, Line, number, update, walk, load_next, load_lease, store_next, change_lease, free,
  print, print_leases, append_lease, exceeds, increment, decrement, malloc,
}
use internet_applications.Nodes.Links.{contents, last}
use internet_applications.Nodes.Walk.{first-Hit, load_next_lem, load_lease_lem}
use internet_applications.Nodes.Lists.{
  of_addr, of_mac, meets-has_addr, has_addr-hit, reuse_lease-hit, reuse_lease-miss,
}
use internet_applications.Nodes.Refined.{
  stamp-Represents, Represents, change_lease_lem, missed, hit,
}

module _ (m : Memory) (s : Store) (t : Leases) (r : Represents s t)
    (f : length t.lease_head < m.fuel) where
  draw-refines :
      (fuel : ℕ) (rand : ℕ → ℕ) (k a : ℕ)
      → Lease.draw fuel rand k t.lease_head ≡ ok a
      → Nodes.draw m fuel rand k s ≡ ok (some (a, s))
  unfolding Nodes.draw Lease.draw
  draw-refines zero rand k a run = absurd (cc)
  draw-refines (suc fuel) rand k a run =
      let x = drawn rand k in
      elim (first-Hit (of_addr x) r.cells) [
        | inl h ↦
            let g = hit m s t r f (of_addr x) h in
            let taken : has_addr x t.lease_head ≡ true =
              ap (has_addr x) (sym r.same ∙ g.split_contents)
              ∙ has_addr-hit x h.before h.found (contents h.behind) h.met in
            rw g.walked (draw-refines fuel rand (k + 1) a (rw taken at run))
        | inr none_meets ↦
            let unused : has_addr x t.lease_head ≡ false =
              ap (has_addr x) (sym r.same) ∙ sym (meets-has_addr x r.cells) ∙ none_meets in
            rw (missed m s t r f (of_addr x) none_meets) (ground (arith, unused))
      ]

  exceeding :
      {b : Bool} (full : ltb (ip_address_pool_amount - 1) t.num_of_lease ≡ b)
      → exceeds s.num_of_lease (ip_address_pool_amount - 1) ≡ b
  exceeding full = ap (λ n. exceeds n (ip_address_pool_amount - 1)) r.counted ∙ full

  pub allocate_ip-refines :
      (x : Random) (now seed_time : ℕ) (mac : Bytes) (t' : Leases) (res : ℤ) (a : Option ℕ)
      → Lease.allocate_ip x now seed_time t mac ≡ ok (t', res, a)
      → (s' : Store) × (Nodes.allocate_ip m x now seed_time mac s ≡ ok (some ((res, a), s')))
        × Represents s' t'
        × (s'.printed ≡ s.printed)
  unfolding Nodes.allocate_ip Lease.allocate_ip
  allocate_ip-refines x now seed_time mac t' res a run = elim (first-Hit (of_mac mac) r.cells) [
    | inl h ↦
        let g = hit m s t r f (of_mac mac) h in
        let l = stamped now h.found in
        let ls = contents h.before ++ l ∷ contents h.behind in
        let found : reuse_lease now mac t.lease_head ≡ some (h.found.addr, ls) =
          ap (reuse_lease now mac) (sym r.same ∙ g.split_contents)
          ∙ reuse_lease-hit now 0 mac h.before h.found (contents h.behind) h.none_before h.met in
        let s' = record s { lease = update s.lease h.at (some l) } in
        let there : s'.lease h.at ≡ some l = ground arith in
        let table : record t { lease_head = ls } ≡ t' = ground (arith, found) in
        let result : res ≡ pos 0 = ground (arith, found) in
        let address : a ≡ some h.found.addr = ground (arith, found) in
        (
          s',
          rw
              (
                g.walked,
                load_next_lem (last s.lease_head h.before) h.at s g.linked,
                change_lease_lem h.at (λ k. record k { time_stamp = now }) h.found s g.there,
                load_lease_lem h.at l s' there,
                result,
                address,
              )
              refl,
          subst (Represents s') table (stamp-Represents m s t r f (of_mac mac) h now),
          refl,
        )
    | inr none_meets ↦
        let unknown : reuse_lease now mac t.lease_head ≡ none =
          ap (reuse_lease now mac) (sym r.same) ∙ reuse_lease-miss now 0 mac r.cells none_meets in
        elim (Bool-cases (ltb (ip_address_pool_amount - 1) t.num_of_lease)) [
          | inl full ↦
              let table : t ≡ t' = ground (arith, unknown, full) in
              let result : res ≡ Nodes.negsuc 0 = ground (arith, unknown, full) in
              let address : a ≡ none = ground (arith, unknown, full) in
              (
                s,
                rw (missed m s t r f (of_mac mac) none_meets, exceeding full, result, address) refl,
                subst (Represents s) table r,
                refl,
              )
          | inr room ↦
              elim (Run-cases (Lease.draw x.fuel (x.rand (seed_time % 2 ^ 32)) 0 t.lease_head)) [
                | inl (y, d) ↦
                    let table : t ≡ t' = ground (arith, unknown, room, d) in
                    let result : res ≡ pos 0 = ground (arith, unknown, room, d) in
                    let address : a ≡ some y = ground (arith, unknown, room, d) in
                    (
                      s,
                      rw
                          (
                            missed m s t r f (of_mac mac) none_meets,
                            exceeding room,
                            draw-refines x.fuel (x.rand (seed_time % 2 ^ 32)) 0 y d,
                            result,
                            address,
                          )
                          refl,
                      subst (Represents s) table r,
                      refl,
                    )
                | inr (inl d) ↦ absurd (ground (arith, unknown, room, d))
                | inr (inr d) ↦ absurd (ground (arith, unknown, room, d))
              ]
        ]
  ]
