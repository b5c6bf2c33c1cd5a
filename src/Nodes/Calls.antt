-- ===== src/Nodes/Calls.antt =====
-- A server's calls of the functions of the lease list, in memory and on the table, from the empty list on.
use internet_applications.Base.{
  ℕ, ◌+◌, ◌≤◌, ◌<◌, ◌≡◌, refl, sym, ◌∙◌, Option, some, List, [], ◌∷◌, ◌++◌, Bytes, Run, ok, fault,
  arith, ◌⊎◌, inl, inr, Run-cases, append-nil, ℤ, ◌>>=◌,
}
use mathlib.Core.Path.{subst}
use internet_applications.Exec
use internet_applications.Exec.{Exec, pure}
use internet_applications.Lease
use internet_applications.Lease.{Leases, Random, reuse_lease, stamp_lease, unlink_lease, draw}
use internet_applications.Lease.Table.{
  allocate_ip-num, add_lease-num, IsTable, add_lease-IsTable, delete_lease-IsTable,
  allocate_ip-IsTable,
}
use internet_applications.Nodes
use internet_applications.Nodes.{Store, Memory, Line, update, malloc, make_head}
use internet_applications.Nodes.Refined.{Represents, check_ipaddr-refines}
use internet_applications.Nodes.Allocated.{allocate_ip-refines}
use internet_applications.Nodes.Added.{Fresh, added_lines, add_lease-refines}
use internet_applications.Nodes.Deleted.{deleted_lines, delete_lease-refines}

pub data Call : Type 0 where
  check : (now ip : ℕ) → (mac : Bytes) → Call
  allocate : (now seed_time : ℕ) → (mac : Bytes) → Call
  add : (now new_ip : ℕ) → (mac : Bytes) → Call
  delete : (ip : ℕ) → (mac : Bytes) → Call

pub data Answer : Type 0 where
  verdict : ℤ → Answer
  given : ℤ → Option ℕ → Answer
  done : Answer

module _ (x : Random) where
  -- A call on the table: the answer, the table, and the lines.
  abbrev pub table_call : Call → Leases → Run (Answer × Leases × List Line)
  table_call (check now ip mac) t = ok (verdict (Lease.check_ipaddr now t ip mac), t, [])
  table_call (allocate now seed_time mac) t =
      Lease.allocate_ip x now seed_time t mac >>= λ (t', res, a). ok (given res a, t', [])
  table_call (add now new_ip mac) t =
      ok (done, Lease.add_lease now t new_ip mac, added_lines now t new_ip mac)
  table_call (delete ip mac) t = ok (done, Lease.delete_lease t ip mac, deleted_lines t ip mac)

  unfoldable pub table_calls : List Call → Leases → Run (List Answer × Leases × List Line)
  table_calls [] t = ok ([], t, [])
  table_calls (c ∷ cs) t = table_call c t >>= λ (a, t₁, lines).
      table_calls cs t₁ >>= λ (answers, t₂, more). ok (a ∷ answers, t₂, lines ++ more)

  module _ (m : Memory) where
    abbrev pub memory_call : Call → Exec Store Answer
    memory_call (check now ip mac) =
        Exec.◌>>=◌ (Nodes.check_ipaddr m now ip mac) (λ r. pure (verdict r))
    memory_call (allocate now seed_time mac) =
        Exec.◌>>=◌ (Nodes.allocate_ip m x now seed_time mac) (λ (res, a). pure (given res a))
    memory_call (add now new_ip mac) =
        Exec.◌>>=◌ (Nodes.add_lease m now new_ip mac) (λ u. pure done)
    memory_call (delete ip mac) = Exec.◌>>=◌ (Nodes.delete_lease m ip mac) (λ u. pure done)

    unfoldable pub memory_calls : List Call → Exec Store (List Answer)
    memory_calls [] = pure []
    memory_calls (c ∷ cs) =
        Exec.◌>>=◌ (memory_call c)
          (λ a. Exec.◌>>=◌ (memory_calls cs) (λ answers. pure (a ∷ answers)))

-- How a run in memory goes when the table gives `b`, `t` and the lines: it gives the same, or `malloc`
-- gave NULL and the run faults.
abbrev pub Goes : Memory → {B : Type 0} → Run (Option (B × Store)) → B → Leases → List Line → Type 0
Goes m run b t lines =
    ((s' : Store) × (run ≡ ok (some (b, s'))) × Represents s' t × (s'.printed ≡ lines))
    ⊎ ((n : ℕ → Option ℕ) × (m.malloc n ≡ 0) × (run ≡ fault))

delete_lease-num :
    (t : Leases) (ip : ℕ) (mac : Bytes)
    → (Lease.delete_lease t ip mac).num_of_lease ≤ t.num_of_lease
unfolding Lease.delete_lease
delete_lease-num t ip mac = ground arith

pub ok_injective : {A : Type 0} (a b : A) → ◌≡◌ {A = Run A} (ok a) (ok b) → a ≡ b
ok_injective a b h = cc

-- The table after a call: well-formed, and with one lease more at most.
abbrev pub OneMore : Leases → Answer × Leases × List Line → Type 0
OneMore t y = IsTable y.1 × (y.1.num_of_lease ≤ t.num_of_lease + 1)

module _ (x : Random) where
  -- The parts of a call of `allocate_ip` that returns.
  allocated :
      (now seed_time : ℕ) (mac : Bytes) (t : Leases) (y : Answer × Leases × List Line)
      → table_call x (allocate now seed_time mac) t ≡ ok y
      → (t₁ : Leases) × (res : ℤ) × (v : Option ℕ) × (Lease.allocate_ip x now seed_time t mac
          ≡ ok (t₁, res, v))
        × ((given res v, t₁, []) ≡ y)
  allocated now seed_time mac t y run = elim (Run-cases (Lease.allocate_ip x now seed_time t mac)) [
    | inl ((t₁, res, v), e) ↦ (t₁, res, v, e, ok_injective (given res v, t₁, []) y (rw e at run))
    | inr (inl e) ↦ absurd (let no_value = rw e at run in cc)
    | inr (inr e) ↦ absurd (let no_value = rw e at run in cc)
  ]

  pub table_call-IsTable :
      (c : Call) (t : Leases) (y : Answer × Leases × List Line)
      → table_call x c t ≡ ok y
      → IsTable t
      → OneMore t y
  table_call-IsTable (check now ip mac) t y run well =
      subst (OneMore t) (ok_injective (verdict (Lease.check_ipaddr now t ip mac), t, []) y run)
        (well, omega arith)
  table_call-IsTable (allocate now seed_time mac) t y run well =
      let (t₁, res, v, e, same) = allocated now seed_time mac t y run in
      subst (OneMore t) same (
        allocate_ip-IsTable x now seed_time t mac well t₁ res v e,
        omega (arith, allocate_ip-num x now seed_time t mac t₁ res v e),
      )
  table_call-IsTable (add now new_ip mac) t y run well =
      subst (OneMore t)
        (ok_injective (done, Lease.add_lease now t new_ip mac, added_lines now t new_ip mac) y run)
        (add_lease-IsTable now t new_ip mac well, add_lease-num now t new_ip mac)
  table_call-IsTable (delete ip mac) t y run well =
      subst (OneMore t)
        (ok_injective (done, Lease.delete_lease t ip mac, deleted_lines t ip mac) y run)
        (delete_lease-IsTable t ip mac well, omega (arith, delete_lease-num t ip mac))

  module _ (m : Memory) (malloc_fresh : Fresh m) where
    abbrev AsTable : Call → Store → Answer × Leases × List Line → Type 0
    AsTable c s y = Goes m (memory_call x m c s) y.0 y.1 (s.printed ++ y.2)

    pub memory_call-refines :
        (c : Call) (s : Store) (t : Leases) (y : Answer × Leases × List Line)
        → Represents s t
        → IsTable t
        → t.num_of_lease + 1 < m.fuel
        → table_call x c t ≡ ok y
        → AsTable c s y
    memory_call-refines (check now ip mac) s t y r well f run =
        let ends = check_ipaddr-refines m s t r (omega (arith, well.counted)) now ip mac in
        subst (AsTable (check now ip mac) s)
          (ok_injective (verdict (Lease.check_ipaddr now t ip mac), t, []) y run)
          (inl (s, rw ends refl, r, sym (append-nil s.printed)))
    memory_call-refines (allocate now seed_time mac) s t y r well f run =
        let (t₁, res, v, e, same) = allocated now seed_time mac t y run in
        let (s', ends, represents, silent) =
          allocate_ip-refines m s t r (omega (arith, well.counted)) x now seed_time mac t₁ res v
            e in
        subst (AsTable (allocate now seed_time mac) s) same
          (inl (s', rw ends refl, represents, silent ∙ sym (append-nil s.printed)))
    memory_call-refines (add now new_ip mac) s t y r well f run =
        subst (AsTable (add now new_ip mac) s)
          (ok_injective (done, Lease.add_lease now t new_ip mac, added_lines now t new_ip mac) y
            run)
          (elim (add_lease-refines m s t r (omega (arith, well.counted)) now mac malloc_fresh
            new_ip) [
              | inl (s', ends, represents, lines) ↦ inl (s', rw ends refl, represents, lines)
              | inr (null, ends) ↦ inr (s.next, null, rw ends refl)
            ])
    memory_call-refines (delete ip mac) s t y r well f run =
        let (s', ends, represents, lines) =
          delete_lease-refines m s t r (omega (arith, well.counted)) ip mac well in
        subst (AsTable (delete ip mac) s)
          (ok_injective (done, Lease.delete_lease t ip mac, deleted_lines t ip mac) y run)
          (inl (s', rw ends refl, represents, lines))
