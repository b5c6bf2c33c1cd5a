-- ===== src/Nodes/Refined.antt =====
-- The functions of the lease list in memory do what those of the lease table do.
use internet_applications.Base.{
  ℕ, suc, ◌+◌, ◌-◌, ◌<◌, ◌≡◌, ◌≢◌, refl, ap, ◌∙◌, Bool, true, false, ◌||◌, Option, some, [], ◌∷◌,
  ◌++◌, Bytes, ok, length, length-append, arith, ltb, inl, inr, Bool-cases, pos,
}
use mathlib.Core.Path.{subst}
use internet_applications.Words.{ntohl}
use internet_applications.Protocol.{ip_address_pool_start, ip_address_pool_amount}
use internet_applications.Lease
use internet_applications.Lease.{Lease, Leases, Random, same_mac}
use internet_applications.Lease.Lookup.{stamped}
use internet_applications.Nodes
use internet_applications.Nodes.{
  Store, Memory, Line, number, update, walk, load_next, load_lease, store_next, change_lease, free,
  print, judge,
}
use internet_applications.Nodes.Links.{
  Cells, contents, last, first, Links, Links-first, Links-split,
}
use internet_applications.Nodes.Walk.{
  Hit, meets, first-Hit, walk-hit, walk-miss, load_next_lem, load_lease_lem,
}
use internet_applications.Nodes.Lists.{of_addr, contents-append, check_lease-hit, check_lease-miss}
use internet_applications.Nodes.Changes.{Holds, Holds-write}

-- The memory holds the leases of the table, in their order, and nothing else.
pub record Represents (s : Store) (t : Leases) : Type 0 where
  pub cells : Cells
  pub nonnull : s.lease_head ≢ 0
  pub holds : Holds s.next s.lease s.lease_head cells
  pub same : contents cells ≡ t.lease_head
  pub counted : s.num_of_lease ≡ pos t.num_of_lease

pub length-contents : (cs : Cells) → length (contents cs) ≡ length cs
length-contents [] = refl
length-contents ((q, l) ∷ cs) = ap suc (length-contents cs)

pub Links-last :
    (n : ℕ → Option ℕ) (d : ℕ → Option Lease) (p : ℕ) (cs : Cells) (w : ℕ)
    → Links n d p cs w
    → n (last p cs) ≡ some w
Links-last n d p [] w h = h
Links-last n d p ((q, l) ∷ cs) w h = Links-last n d q cs w h.3

pub store_next_lem :
    (p q v : ℕ) (s : Store)
    → s.next p ≡ some v
    → store_next p q s ≡ ok (some (tt, record s { next = update s.next p (some q) }))
unfolding store_next
store_next_lem p q v s h = ground arith

pub change_lease_lem :
    (p : ℕ) (f : Lease → Lease) (l : Lease) (s : Store)
    → s.lease p ≡ some l
    → change_lease p f s ≡ ok (some (tt, record s { lease = update s.lease p (some (f l)) }))
unfolding change_lease
change_lease_lem p f l s h = rw (h, change_lease) refl

-- What a loop that is left by its test leaves known.
pub record Found (m : Memory) (s : Store) (test : Lease → Bool) (cs : Cells) (h : Hit test cs)
    : Type 0 where
  pub walked : walk test m.fuel s.lease_head s ≡ ok (some ((last s.lease_head h.before, true), s))
  pub linked : s.next (last s.lease_head h.before) ≡ some h.at
  pub there : s.lease h.at ≡ some h.found
  pub onward : s.next h.at ≡ some (first 0 h.behind)
  pub split_holds : Holds s.next s.lease s.lease_head (h.before ++ (h.at, h.found) ∷ h.behind)
  pub split_contents : contents cs ≡ contents h.before ++ h.found ∷ contents h.behind

Hit-Found :
    (m : Memory) (s : Store) (test : Lease → Bool) (cs : Cells) (h : Hit test cs)
    → Holds s.next s.lease s.lease_head cs
    → length cs < m.fuel
    → Found m s test cs h
Hit-Found m s test cs h holds f =
    let n = s.next in
    let d = s.lease in
    let rest = (h.at, h.found) ∷ h.behind in
    let split = subst (λ c. Holds n d s.lease_head c) h.split holds in
    let (front, (nonnull, there, back)) =
      Links-split n d s.lease_head h.before rest 0 split.linked in
    let long : length cs ≡ length (h.before ++ rest) = ap length h.split in
    record {
      walked =
          walk-hit test s m.fuel s.lease_head h.before h.at h.found
            (omega (arith, long, length-append h.before rest)) front nonnull there h.none_before
            h.met;
      linked = Links-last n d s.lease_head h.before h.at front;
      there = there;
      onward = Links-first n d h.at h.behind 0 back;
      split_holds = split;
      split_contents = ap contents h.split ∙ contents-append h.before rest;
    }

module _ (m : Memory) (s : Store) (t : Leases) (r : Represents s t)
    (f : length t.lease_head < m.fuel) where
  pub few : length r.cells < m.fuel
  few = omega (arith, length-contents r.cells, ap length r.same)

  pub missed :
      (test : Lease → Bool)
      → meets test r.cells ≡ false
      → walk test m.fuel s.lease_head s ≡ ok (some ((last s.lease_head r.cells, false), s))
  missed test none_meets =
      walk-miss test s m.fuel s.lease_head r.cells few r.holds.linked none_meets

  pub hit : (test : Lease → Bool) (h : Hit test r.cells) → Found m s test r.cells h
  hit test h = Hit-Found m s test r.cells h r.holds few

  -- The node at which a loop is left is stamped.
  pub stamp-Represents :
      (test : Lease → Bool) (h : Hit test r.cells) (now : ℕ)
      → Represents
          (record s { lease = update s.lease h.at (some (stamped now h.found)) })
          (record t { lease_head = contents h.before ++ stamped now h.found ∷ contents h.behind })
  stamp-Represents test h now =
      let g = hit test h in
      let l = stamped now h.found in
      record {
        nonnull = r.nonnull;
        cells = h.before ++ (h.at, l) ∷ h.behind;
        holds =
            Holds-write s.next s.lease s.lease_head h.before h.at h.found l h.behind g.split_holds;
        same = contents-append h.before ((h.at, l) ∷ h.behind);
        counted = r.counted;
      }

  pub check_ipaddr-refines :
      (now ip : ℕ) (mac : Bytes)
      → Nodes.check_ipaddr m now ip mac s ≡ ok (some (Lease.check_ipaddr now t ip mac, s))
  unfolding Nodes.check_ipaddr Lease.check_ipaddr
  check_ipaddr-refines now ip mac =
      let a = ntohl ip in
      elim (Bool-cases (
        ltb a ip_address_pool_start
        || ltb (ip_address_pool_start + ip_address_pool_amount - 1) a)) [
          | inl out ↦ rw out refl
          | inr inside ↦ elim (first-Hit (of_addr a) r.cells) [
            | inl h ↦
                let k = hit (of_addr a) h in
                rw
                  (
                    inside,
                    k.walked,
                    load_next_lem (last s.lease_head h.before) h.at s k.linked,
                    load_lease_lem h.at h.found s k.there,
                    ← r.same,
                    k.split_contents,
                    check_lease-hit now a mac h.before h.found (contents h.behind) h.none_before
                        h.met,
                  )
                  refl
            | inr none_meets ↦
                rw
                  (
                    inside,
                    missed (of_addr a) none_meets,
                    ← r.same,
                    check_lease-miss now a mac r.cells none_meets,
                  )
                  refl
          ]
        ]
