-- ===== src/Nodes/Sequence.antt =====
-- Every sequence of calls of the functions of the lease list, from `dhcp_setup` on.
use internet_applications.Base.{
  ◌+◌, ◌<◌, ◌≡◌, ◌≢◌, refl, sym, ap, ◌∙◌, none, some, List, [], ◌∷◌, ◌++◌, ok, fault, length, arith,
  ne→==, inl, inr, Run-cases, append-nil, append_assoc, pos,
}
use mathlib.Core.Path.{subst}
use native.Mathlib.Decide.{ℕ_discrete}
use internet_applications.Exec
use internet_applications.Exec.{Exec}
use internet_applications.Lease.{Leases, Random}
use internet_applications.Lease.Table.{IsTable}
use internet_applications.Nodes.{Store, Memory, Line, update, malloc, make_head, store_next}
use internet_applications.Nodes.Refined.{Represents}
use internet_applications.Nodes.Added.{Fresh, store_next_again}
use internet_applications.Nodes.Calls.{
  Call, Answer, table_call, table_calls, memory_calls, Goes, ok_injective, table_call-IsTable,
  memory_call-refines,
}

abbrev pub no_leases : Leases
no_leases = record { lease_head = []; num_of_lease = 0 }

-- Before the first allocation.
abbrev pub start : Store
start = record {
  next = λ a. none;
  lease = λ a. none;
  lease_head = 0;
  num_of_lease = pos 0;
  printed = [];
}

-- What becomes of the program's list: the head is made, then the calls follow.
unfoldable pub program : Random → Memory → List Call → Exec Store (List Answer)
program x m cs = Exec.◌>>◌ (make_head m) (memory_calls x m cs)

module _ (x : Random) where
  steps :
      (c : Call) (cs : List Call) (t : Leases) (z : List Answer × Leases × List Line)
      → table_calls x (c ∷ cs) t ≡ ok z
      → (y : Answer × Leases × List Line) × (w : List Answer × Leases × List Line) × (table_call x c
            t
          ≡ ok y)
        × (table_calls x cs y.1 ≡ ok w)
        × ((y.0 ∷ w.0, w.1, y.2 ++ w.2) ≡ z)
  unfolding table_calls
  steps c cs t z run = elim (Run-cases (table_call x c t)) [
    | inl (y, e) ↦
        let run₁ = rw e at run in
        elim (Run-cases (table_calls x cs y.1)) [
          | inl (w, e₁) ↦ (y, w, e, e₁, ok_injective (y.0 ∷ w.0, w.1, y.2 ++ w.2) z (rw e₁ at run₁))
          | inr (inl e₁) ↦ absurd (let no_value = rw e₁ at run₁ in cc)
          | inr (inr e₁) ↦ absurd (let no_value = rw e₁ at run₁ in cc)
        ]
    | inr (inl e) ↦ absurd (let no_value = rw e at run in cc)
    | inr (inr e) ↦ absurd (let no_value = rw e at run in cc)
  ]

  module _ (m : Memory) (malloc_fresh : Fresh m) where
    abbrev AsTable : List Call → Store → List Answer × Leases × List Line → Type 0
    AsTable cs s z = Goes m (memory_calls x m cs s) z.0 z.1 (s.printed ++ z.2)

    memory_calls-refines :
        (cs : List Call) (s : Store) (t : Leases) (z : List Answer × Leases × List Line)
        → Represents s t
        → IsTable t
        → t.num_of_lease + length cs < m.fuel
        → table_calls x cs t ≡ ok z
        → AsTable cs s z
    unfolding memory_calls table_calls
    memory_calls-refines [] s t z r well f run =
        subst (AsTable [] s) (ok_injective ([], t, []) z run)
          (inl (s, refl, r, sym (append-nil s.printed)))
    memory_calls-refines (c ∷ cs) s t z r well f run =
        let (y, w, one, more, same) = steps c cs t z run in
        let (well', grown) = table_call-IsTable x c t y one well in
        subst (AsTable (c ∷ cs) s) same
          (elim (memory_call-refines x m malloc_fresh c s t y r well (omega arith) one) [
            | inr (n, null, ends) ↦ inr (n, null, rw ends refl)
            | inl (s', ends, r', lines) ↦
                elim (memory_calls-refines cs s' y.1 w r' well' (omega arith) more) [
                  | inr (n, null, then_ends) ↦ inr (n, null, rw (ends, then_ends) refl)
                  | inl (s₂, then_ends, r₂, then_lines) ↦ inl (
                    s₂,
                    rw (ends, then_ends) refl,
                    r₂,
                    then_lines ∙ ap (λ ls. ls ++ w.2) lines ∙ append_assoc s.printed y.2 w.2,
                  )
                ]
          ])

    make_head-Represents :
        m.malloc start.next ≢ 0
        → (s : Store) × (make_head m start ≡ ok (some (tt, s)))
          × Represents s no_leases
          × (s.printed ≡ [])
    unfolding make_head malloc
    make_head-Represents given =
        let p = m.malloc start.next in
        let s = record start {
          next = update start.next p (some 0);
          lease = update start.lease p (some (m.left_lease p));
          lease_head = p;
        } in
        (
          s,
          rw (ne→== p 0 given, store_next_again p 0 (m.left_next p) start.next s) refl,
          record {
            cells = [];
            nonnull = given;
            holds = record { linked = ground arith; apart = tt; owned = λ a out. ground arith };
            same = refl;
            counted = refl;
          },
          refl,
        )

    make_head-faults : m.malloc start.next ≡ 0 → make_head m start ≡ fault
    unfolding make_head malloc store_next
    make_head-faults null = rw null refl

    -- Over every sequence of calls that gives a result on the table, the calls on the nodes in memory give
    -- the same answers and lines, neither fault nor run out of fuel, and leave the leases of the table in
    -- memory and nothing else; or some `malloc` gave NULL, and the program faults. The loops have more
    -- rounds than there are calls, and `malloc` gives NULL or an address that is not in use.
    pub program-refines :
        (cs : List Call) (answers : List Answer) (t : Leases) (lines : List Line)
        → length cs < m.fuel
        → table_calls x cs no_leases ≡ ok (answers, t, lines)
        → Goes m (program x m cs start) answers t lines
    unfolding program
    program-refines cs answers t lines f run = elim (ℕ_discrete (m.malloc start.next) 0) [
      | yes null ↦ inr (start.next, null, rw (make_head-faults null) refl)
      | no given ↦
          let (s, ends, r, silent) = make_head-Represents given in
          let well : IsTable no_leases = record { counted = refl; unique = tt } in
          elim (memory_calls-refines cs s no_leases (answers, t, lines) r well (omega arith) run) [
            | inr (n, null, then_ends) ↦ inr (n, null, rw (ends, then_ends) refl)
            | inl (s', then_ends, r', said) ↦
                inl (s', rw (ends, then_ends) refl, r', said ∙ ap (λ ls. ls ++ lines) silent)
          ]
    ]
