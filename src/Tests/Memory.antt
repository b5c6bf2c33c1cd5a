-- ===== src/Tests/Memory.antt =====
-- The lease list in memory at a `malloc` that gives the first free of a few addresses.
use internet_applications.Base.{
  ℕ, zero, suc, ◌+◌, ◌≡◌, ◌≢◌, refl, Option, none, some, List, [], ◌∷◌, ok, arith, pos,
  Option-cases, inl, inr,
}
use internet_applications.Words.{htonl}
use internet_applications.Lease.{
  same_mac, check_ipaddr, check_lease, add_lease, stamp_lease, delete_lease, unlink_lease,
}
use internet_applications.Nodes.{Memory, Line, number, entry}
use internet_applications.Nodes.Added.{Fresh}
use internet_applications.Nodes.Calls.{
  Call, check, add, delete, Answer, verdict, done, table_calls, Goes,
}
use internet_applications.Nodes.Sequence.{no_leases, start, program, program-refines}
use internet_applications.Tests.{ann, bob, first_ip, first_word, anns, counting}

abbrev first_free : (tries a : ℕ) → (ℕ → Option ℕ) → ℕ
first_free zero a n = 0
first_free (suc k) a n =
    let later = first_free k (a + 1) n in elim (n a) [ none ↦ a | some q ↦ later ]

first_free-is_free :
    (tries a : ℕ) (n : ℕ → Option ℕ) → first_free tries a n ≢ 0 → n (first_free tries a n) ≡ none
first_free-is_free zero a n h = absurd (h refl)
first_free-is_free (suc k) a n h = elim (Option-cases (n a)) [
  | inl e ↦ ground (arith, e)
  | inr (q, e) ↦ ground (arith, e, first_free-is_free k (a + 1) n)
]

abbrev memory : Memory
memory = record {
  malloc = λ n. first_free 8 4096 n;
  left_next = λ p. 77;
  left_lease = λ p. anns;
  fuel = 10;
}

memory-Fresh : Fresh memory
memory-Fresh = λ n. first_free-is_free 8 4096 n

abbrev calls : List Call
calls = add 100 first_word ann ∷ check 200 first_word bob ∷ delete first_word ann ∷ []

abbrev answers : List Answer
answers = done ∷ verdict (pos 1) ∷ done ∷ []

abbrev lines : List Line
lines = number (pos 1) ∷ entry first_ip ann ∷ number (pos 0) ∷ []

on_table : table_calls counting calls no_leases ≡ ok (answers, no_leases, lines)
unfolding table_calls add_lease stamp_lease delete_lease unlink_lease check_ipaddr check_lease
    same_mac htonl
on_table = refl

program-refines_example : Goes memory (program counting memory calls start) answers no_leases lines
program-refines_example =
    program-refines counting memory memory-Fresh calls answers no_leases lines (omega arith)
      on_table
