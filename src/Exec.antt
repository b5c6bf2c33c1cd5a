-- ===== src/Exec.antt =====
-- Programs that read and write a state, may fault, and may end the process (`none`).
use internet_applications.Base.{Option, none, some, Run, ok, fault, out_of_fuel}

abbrev pub Exec : Type 0 → Type 0 → Type 0
Exec S A = S → Run (Option (A × S))

module _ {S A B : Type 0} where
  abbrev pub resume : Run (Option (A × S)) → (A → Exec S B) → Run (Option (B × S))
  resume (ok none) f = ok none
  resume (ok (some (a, s))) f = f a s
  resume fault f = fault
  resume out_of_fuel f = out_of_fuel

  infixl 5 ◌>>=◌ ◌>>◌
  abbrev pub ◌>>=◌ : Exec S A → (A → Exec S B) → Exec S B
  m >>= f = λ s. resume (m s) f

  abbrev pub ◌>>◌ : Exec S A → Exec S B → Exec S B
  m >> k = m >>= λ _. k

module _ {S A : Type 0} where
  abbrev pub pure : A → Exec S A
  pure a s = ok (some (a, s))

  -- A read that leaves the state alone.
  abbrev pub gets : (S → A) → Exec S A
  gets f s = ok (some (f s, s))

  abbrev pub lift : Run A → Exec S A
  lift (ok a) s = ok (some (a, s))
  lift fault s = fault
  lift out_of_fuel s = out_of_fuel

  -- `dhcp_close(); exit(1);`: whatever runs the program has the socket, and closes it.
  abbrev pub close_and_exit : Exec S A
  close_and_exit s = ok none

module _ {S : Type 0} where
  abbrev pub modify : (S → S) → Exec S (Unit {0})
  modify f s = ok (some (tt, f s))
