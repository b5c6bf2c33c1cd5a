-- ===== src/Nodes/Deleted.antt =====
-- The removal of a lease, in memory and on the table.
use internet_applications.Base.{
  ℕ, zero, suc, ◌-◌, ◌<◌, ◌≡◌, refl, sym, ap, ◌∙◌, Bool, false, none, some, List, [], ◌∷◌, ◌++◌,
  Bytes, ok, length, length-append, arith, inl, inr, ℤ, pos,
}
use mathlib.Core.Path.{subst}
use internet_applications.Words.{ntohl}
use internet_applications.Lease
use internet_applications.Lease.{
  Lease, Leases, Random, same_mac, drawn, has_addr, reuse_lease, stamp_lease, unlink_lease,
}
use internet_applications.Lease.Table.{IsTable}
use internet_applications.Nodes
use internet_applications.Nodes.{
  Store, Memory, Line, number, update, walk, load_next, load_lease, store_next, change_lease, free,
  print, print_leases, append_lease, exceeds, increment, decrement, malloc,
}
use internet_applications.Nodes.Links.{contents, last, first}
use internet_applications.Nodes.Walk.{
  Hit, meets, first-Hit, load_next_lem, entries, print_leases_lem,
}
use internet_applications.Nodes.Lists.{
  of_both, contents-append, unlink_lease-hit, unlink_lease-miss,
}
use internet_applications.Nodes.Changes.{Holds-unlink}
use internet_applications.Nodes.Refined.{Represents, store_next_lem, few, missed, hit}

-- What `delete_lease` prints: the number of leases if it drops one, otherwise every lease.
abbrev pub deleted_lines : Leases → (ip : ℕ) → (mac : Bytes) → List Line
deleted_lines t ip mac = elim (unlink_lease (ntohl ip) mac t.lease_head) [
  | some ls ↦ number (pos (t.num_of_lease - 1)) ∷ []
  | none ↦ entries t.lease_head
]

free_lem :
    (p v : ℕ) (s : Store)
    → s.next p ≡ some v
    → free p s
      ≡ ok (some (tt, record s { next = update s.next p none; lease = update s.lease p none }))
unfolding free
free_lem p v s h = rw (h, free) refl

decrement-pos : (n : ℤ) (k : ℕ) → n ≡ pos k → 0 < k → decrement n ≡ pos (k - 1)
decrement-pos n zero e h = absurd (omega arith)
decrement-pos n (suc k) e h = ap decrement e ∙ ap pos (omega arith)

table-hit :
    (t : Leases) (ip : ℕ) (mac : Bytes) (ls : List Lease)
    → unlink_lease (ntohl ip) mac t.lease_head ≡ some ls
    → (Lease.delete_lease t ip mac ≡ record { lease_head = ls; num_of_lease = t.num_of_lease - 1 })
      × (deleted_lines t ip mac ≡ number (pos (t.num_of_lease - 1)) ∷ [])
unfolding Lease.delete_lease
table-hit t ip mac ls gone = (ground (arith, gone), ground (arith, gone))

table-miss :
    (t : Leases) (ip : ℕ) (mac : Bytes)
    → unlink_lease (ntohl ip) mac t.lease_head ≡ none
    → (Lease.delete_lease t ip mac ≡ t) × (deleted_lines t ip mac ≡ entries t.lease_head)
unfolding Lease.delete_lease
table-miss t ip mac stays = (ground (arith, stays), ground (arith, stays))

module _ (m : Memory) (s : Store) (t : Leases) (r : Represents s t)
    (f : length t.lease_head < m.fuel) (ip : ℕ) (mac : Bytes) where
  abbrev Deleted : Type 0
  Deleted =
      (s' : Store) × (Nodes.delete_lease m ip mac s ≡ ok (some (tt, s')))
      × Represents s' (Lease.delete_lease t ip mac)
      × (s'.printed ≡ s.printed ++ deleted_lines t ip mac)

  abbrev test : Lease → Bool
  test = of_both (ntohl ip) mac

  delete_lease-Hit : IsTable t → Hit test r.cells → Deleted
  unfolding Nodes.delete_lease print
  delete_lease-Hit well h =
      let g = hit m s t r f test h in
      let ls = contents h.before ++ contents h.behind in
      let list : t.lease_head ≡ contents h.before ++ h.found ∷ contents h.behind =
        sym r.same ∙ g.split_contents in
      let (table, lines) = table-hit t ip mac ls (
        ap (unlink_lease (ntohl ip) mac) list
        ∙ unlink_lease-hit 0 (ntohl ip) mac h.before h.found (contents h.behind) h.none_before
            h.met) in
      let p = last s.lease_head h.before in
      let w = first 0 h.behind in
      let s₁ = record s { next = update s.next p (some w) } in
      let fewer = decrement-pos s.num_of_lease t.num_of_lease r.counted (
        omega (
          arith,
          well.counted,
          ap length list,
          length-append (contents h.before) (h.found ∷ contents h.behind),
        )) in
      let onward : s₁.next h.at ≡ some w = ground (arith, g.onward) in
      let s' = record s₁ {
        next = update s₁.next h.at none;
        lease = update s.lease h.at none;
        num_of_lease = decrement s.num_of_lease;
        printed = s.printed ++ number (decrement s.num_of_lease) ∷ [];
      } in
      (
        s',
        rw
            (
              g.walked,
              load_next_lem p h.at s g.linked,
              load_next_lem h.at w s g.onward,
              store_next_lem p w h.at s g.linked,
              free_lem h.at w s₁ onward,
            )
            refl,
        subst (Represents s') (sym table) (record {
          nonnull = r.nonnull;
          cells = h.before ++ h.behind;
          holds =
              Holds-unlink s.next s.lease s.lease_head h.before h.at h.found h.behind g.split_holds;
          same = contents-append h.before h.behind;
          counted = fewer;
        }),
        ap (λ n. s.printed ++ number n ∷ []) fewer ∙ ap (λ ls. s.printed ++ ls) (sym lines),
      )

  delete_lease-miss : meets test r.cells ≡ false → Deleted
  unfolding Nodes.delete_lease
  delete_lease-miss none_meets =
      let (table, lines) = table-miss t ip mac (
        ap (unlink_lease (ntohl ip) mac) (sym r.same)
        ∙ unlink_lease-miss 0 (ntohl ip) mac r.cells none_meets) in
      let s' = record s { printed = s.printed ++ entries (contents r.cells) } in
      (
        s',
        rw
            (
              missed m s t r f test none_meets,
              print_leases_lem s m.fuel s.lease_head r.cells (few m s t r f) r.holds.linked,
            )
            refl,
        subst (Represents s') (sym table) (record {
          nonnull = r.nonnull;
          cells = r.cells;
          holds = r.holds;
          same = r.same;
          counted = r.counted;
        }),
        ap (λ ls. s.printed ++ ls) (ap entries r.same ∙ sym lines),
      )

  pub delete_lease-refines : IsTable t → Deleted
  delete_lease-refines well = elim (first-Hit test r.cells) [
    | inl h ↦ delete_lease-Hit well h
    | inr none_meets ↦ delete_lease-miss none_meets
  ]
