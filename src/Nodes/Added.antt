-- ===== src/Nodes/Added.antt =====
-- A new lease, in memory and on the table.
use internet_applications.Base.{
  ℕ, ◌+◌, ◌<◌, ◌≡◌, ◌≢◌, refl, sym, ap, ◌∙◌, false, ◌||◌, Option, none, some, List, [], ◌∷◌, ◌++◌,
  Bytes, ok, fault, length, length-append, arith, ◌==◌, ne→==, take, ◌⊎◌, inl, inr, append-nil,
  append_assoc, ℤ, pos,
}
use mathlib.Core.Path.{subst, fun_ext}
use native.Mathlib.Decide.{ℕ_discrete}
use internet_applications.Words.{ntohl}
use internet_applications.Protocol.{hardware_address_length}
use internet_applications.Lease
use internet_applications.Lease.{
  Lease, Leases, Random, same_mac, drawn, has_addr, reuse_lease, stamp_lease, unlink_lease,
}
use internet_applications.Lease.Lookup.{stamped, fresh}
use internet_applications.Nodes
use internet_applications.Nodes.{
  Store, Memory, Line, number, update, walk, load_next, load_lease, store_next, change_lease, free,
  print, print_leases, append_lease, exceeds, increment, decrement, malloc,
}
use internet_applications.Nodes.Links.{
  Cells, contents, held, last, Links, Links-frame_next, Links-frame_lease,
}
use internet_applications.Nodes.Walk.{
  Hit, meets, first-Hit, walk-miss, load_next_lem, entries, print_leases_lem,
}
use internet_applications.Nodes.Lists.{of_addr, contents-append, stamp_lease-hit, stamp_lease-miss}
use internet_applications.Nodes.Changes.{Holds-other, Holds-append}
use internet_applications.Nodes.Refined.{
  length-contents, Represents, stamp-Represents, Links-last, store_next_lem, change_lease_lem, few,
  missed, hit,
}

-- What `add_lease` prints: nothing if it stamps a lease, otherwise the number of leases and every lease.
abbrev pub added_lines : (now : ℕ) → Leases → (new_ip : ℕ) → (mac : Bytes) → List Line
added_lines now t new_ip mac = elim (stamp_lease now (ntohl new_ip) t.lease_head) [
  | some ls ↦ []
  | none ↦
      number (pos (t.num_of_lease + 1))
      ∷ entries (t.lease_head ++ fresh now (ntohl new_ip) mac ∷ [])
]

-- What the manual says of `malloc`: it returns NULL, or the address of memory that is not in use.
abbrev pub Fresh : Memory → Type 0
Fresh m = (n : ℕ → Option ℕ) → m.malloc n ≢ 0 → n (m.malloc n) ≡ none

update-update {ℓ} :
    {A : Type ℓ} (f : ℕ → A) (p : ℕ) (a b : A) → update (update f p a) p b ≡ update f p b
update-update f p a b = fun_ext (λ x. ground arith)

-- Writes to the node that `malloc` gave.
change_lease_again :
    (p : ℕ) (g : Lease → Lease) (d : ℕ → Option Lease) (l : Lease) (s : Store)
    → change_lease p g (record s { lease = update d p (some l) })
      ≡ ok (some (tt, record s { lease = update d p (some (g l)) }))
change_lease_again p g d l s =
    change_lease_lem p g l (record s { lease = update d p (some l) }) (ground arith)
    ∙ ap (λ x. ok (some (tt, record s { lease = x }))) (update-update d p (some l) (some (g l)))

pub store_next_again :
    (p q v : ℕ) (n : ℕ → Option ℕ) (s : Store)
    → store_next p q (record s { next = update n p (some v) })
      ≡ ok (some (tt, record s { next = update n p (some q) }))
store_next_again p q v n s =
    store_next_lem p q v (record s { next = update n p (some v) }) (ground arith)
    ∙ ap (λ x. ok (some (tt, record s { next = x }))) (update-update n p (some v) (some q))

change_lease-none :
    (p : ℕ) (f : Lease → Lease) (s : Store) → s.lease p ≡ none → change_lease p f s ≡ fault
unfolding change_lease
change_lease-none p f s h = rw (h, change_lease) refl

meets-false : (cs : Cells) → meets (λ l. false) cs ≡ false
meets-false [] = refl
meets-false ((q, l) ∷ cs) = meets-false cs

increment-pos : (n : ℤ) (k : ℕ) → n ≡ pos k → increment n ≡ pos (k + 1)
increment-pos n k e = ap increment e ∙ ap pos (omega arith)

null-held :
    (n : ℕ → Option ℕ) (d : ℕ → Option Lease) (p : ℕ) (cs : Cells) (w : ℕ)
    → Links n d p cs w
    → held 0 cs ≡ false
null-held n d p [] w h = refl
null-held n d p ((q, l) ∷ cs) w h = ground (arith, h.1, null-held n d q cs w h.3)

abbrev with_new : Leases → (now a : ℕ) → (mac : Bytes) → Leases
with_new t now a mac = record {
  lease_head = t.lease_head ++ fresh now a mac ∷ [];
  num_of_lease = t.num_of_lease + 1;
}

module _ (m : Memory) (s : Store) (t : Leases) (r : Represents s t)
    (f : length t.lease_head + 1 < m.fuel) (now : ℕ) (mac : Bytes) where
  null_faults : (a : ℕ) → m.malloc s.next ≡ 0 → append_lease m now a mac s ≡ fault
  unfolding append_lease malloc
  null_faults a null =
      let outside : ((s.lease_head == 0) || held 0 r.cells) ≡ false =
        ground (arith, r.nonnull, null-held s.next s.lease s.lease_head r.cells 0 r.holds.linked) in
      rw
        (
          null,
          change_lease-none 0 (λ l. record l { time_stamp = now }) s (r.holds.owned 0 outside).1,
        )
        refl

  append_lease_lem :
      (a : ℕ)
      → m.malloc s.next ≢ 0
      → s.next (m.malloc s.next) ≡ none
      → (s' : Store) × (append_lease m now a mac s ≡ ok (some (tt, s')))
        × Represents s' (with_new t now a mac)
        × (s'.printed
            ≡ s.printed
              ++ number (pos (t.num_of_lease + 1)) ∷ entries (t.lease_head ++ fresh now a mac ∷ []))
  unfolding append_lease malloc print
  append_lease_lem a some_node new =
      let p = m.malloc s.next in
      let new_cells = r.cells ++ (p, fresh now a mac) ∷ [] in
      let n = update s.next p (some 0) in
      let d = update s.lease p (some (fresh now a mac)) in
      let s₁ = record s {
        next = update s.next p (some (m.left_next p));
        lease = update s.lease p (some (m.left_lease p));
      } in
      let s₂ = record s { next = n; lease = d } in
      let (head_other, others) = Holds-other s.next s.lease s.lease_head r.cells p new r.holds in
      let chain = Links-frame_next s.next d p (some 0) s.lease_head r.cells 0 head_other others (
        Links-frame_lease s.next s.lease p (some (fresh now a mac)) s.lease_head r.cells 0 others
          r.holds.linked) in
      let holds =
        Holds-append s.next s.lease s.lease_head r.cells p (fresh now a mac) some_node new
          r.holds in
      let more = increment-pos s.num_of_lease t.num_of_lease r.counted in
      let lines = number (increment s.num_of_lease) ∷ [] in
      let s₃ = record s₂ {
        next = update n (last s.lease_head r.cells) (some p);
        num_of_lease = increment s.num_of_lease;
        printed = s.printed ++ lines;
      } in
      let same : contents new_cells ≡ t.lease_head ++ fresh now a mac ∷ [] =
        contents-append r.cells ((p, fresh now a mac) ∷ [])
        ∙ ap (λ ls. ls ++ fresh now a mac ∷ []) r.same in
      let s' = record s₃ { printed = s₃.printed ++ entries (contents new_cells) } in
      (
        s',
        rw
            (
              ne→== p 0 some_node,
              change_lease_again p (λ l. record l { time_stamp = now }) s.lease (m.left_lease p) s₁,
              change_lease_again p (λ l. record l { addr = a }) s.lease
                  (record (m.left_lease p) { time_stamp = now }) s₁,
              change_lease_again p (λ l. record l { chaddr = take hardware_address_length mac })
                  s.lease (record (m.left_lease p) { time_stamp = now; addr = a }) s₁,
              store_next_again p 0 (m.left_next p) s.next (record s₁ { lease = d }),
              walk-miss (λ l. false) s₂ m.fuel s.lease_head r.cells
                  (omega (arith, few m s t r (omega arith))) chain (meets-false r.cells),
              store_next_lem (last s.lease_head r.cells) p 0 s₂
                  (Links-last n d s.lease_head r.cells 0 chain),
              print_leases_lem s₃ m.fuel s.lease_head new_cells
                  (omega (
                    arith,
                    length-append r.cells ((p, fresh now a mac) ∷ []),
                    length-contents r.cells,
                    ap length r.same,
                  ))
                  holds.linked,
            )
            refl,
        record {
          cells = new_cells;
          nonnull = r.nonnull;
          holds = holds;
          same = same;
          counted = more;
        },
        append_assoc s.printed lines (entries (contents new_cells))
            ∙ ap (λ ls. s.printed ++ number (increment s.num_of_lease) ∷ entries ls) same
            ∙ ap (λ k. s.printed ++ number k ∷ entries (t.lease_head ++ fresh now a mac ∷ [])) more,
      )

  abbrev pub Added : ℕ → Type 0
  Added ip =
      (s' : Store) × (Nodes.add_lease m now ip mac s ≡ ok (some (tt, s')))
      × Represents s' (Lease.add_lease now t ip mac)
      × (s'.printed ≡ s.printed ++ added_lines now t ip mac)

  add_lease-Hit : (ip : ℕ) → Hit (of_addr (ntohl ip)) r.cells → Added ip
  unfolding Nodes.add_lease Lease.add_lease
  add_lease-Hit ip h =
      let test = of_addr (ntohl ip) in
      let g = hit m s t r (omega arith) test h in
      let l = stamped now h.found in
      let ls = contents h.before ++ l ∷ contents h.behind in
      let found : stamp_lease now (ntohl ip) t.lease_head ≡ some ls =
        ap (stamp_lease now (ntohl ip)) (sym r.same ∙ g.split_contents)
        ∙ stamp_lease-hit now (ntohl ip) mac h.before h.found (contents h.behind) h.none_before
            h.met in
      let s' = record s { lease = update s.lease h.at (some l) } in
      let table : Lease.add_lease now t ip mac ≡ record t { lease_head = ls } =
        ground (arith, found) in
      let lines : added_lines now t ip mac ≡ [] = ground (arith, found) in
      (
        s',
        rw
            (
              g.walked,
              load_next_lem (last s.lease_head h.before) h.at s g.linked,
              change_lease_lem h.at (λ k. record k { time_stamp = now }) h.found s g.there,
            )
            refl,
        subst (Represents s') (sym table) (stamp-Represents m s t r (omega arith) test h now),
        sym (ap (λ ls. s.printed ++ ls) lines ∙ append-nil s.printed),
      )

  -- A new lease is added unless `malloc` gives NULL, which the code does not check.
  pub add_lease-refines :
      Fresh m
      → (ip : ℕ) → Added ip ⊎ ((m.malloc s.next ≡ 0) × (Nodes.add_lease m now ip mac s ≡ fault))
  unfolding Nodes.add_lease Lease.add_lease
  add_lease-refines malloc_fresh ip =
      let test = of_addr (ntohl ip) in
      elim (first-Hit test r.cells) [
        | inl h ↦ inl (add_lease-Hit ip h)
        | inr none_meets ↦
            let walked = missed m s t r (omega arith) test none_meets in
            let absent : stamp_lease now (ntohl ip) t.lease_head ≡ none =
              ap (stamp_lease now (ntohl ip)) (sym r.same)
              ∙ stamp_lease-miss now (ntohl ip) mac r.cells none_meets in
            elim (ℕ_discrete (m.malloc s.next) 0) [
              | yes null ↦ inr (null, rw (walked, null_faults (ntohl ip) null) refl)
              | no some_node ↦
                  let (s', run, represents, lines) =
                    append_lease_lem (ntohl ip) some_node (malloc_fresh s.next some_node) in
                  let table : Lease.add_lease now t ip mac ≡ with_new t now (ntohl ip) mac =
                    ground (arith, absent) in
                  let said : added_lines now t ip mac
                      ≡ number (pos (t.num_of_lease + 1))
                        ∷ entries (t.lease_head ++ fresh now (ntohl ip) mac ∷ []) =
                    ground (arith, absent) in
                  inl (
                    s',
                    rw (walked, run) refl,
                    subst (Represents s') (sym table) represents,
                    lines ∙ ap (λ ls. s.printed ++ ls) (sym said),
                  )
            ]
      ]
