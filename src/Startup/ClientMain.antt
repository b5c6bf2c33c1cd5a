-- ===== src/Startup/ClientMain.antt =====
-- `main` of dhcp-client.c: how it ends.
use Prim.Native.String.{String, len}
use internet_applications.Base.{
  ℕ, ◌<◌, ◌≡◌, refl, ap, ◌∙◌, Bool, true, false, ◌||◌, Option, none, some, List, [], ◌∷◌, ok, Run,
  fault, out_of_fuel, ◌==◌, ltb, if◌then◌else◌, length, ◌⊎◌, inl, inr, Bool-cases, Ensures,
}
use text.Mathlib.Text.{◌==◌ as str_eq}
use internet_applications.Packet.{Packet}
use internet_applications.Client.{Client, Device}
use internet_applications.Client.Menu.{Event, interact, discover, release, inform, renew, rebind}
use internet_applications.Startup.{
  System, Process, Program, Ending, pure, continue, ◌>>=◌, goes, exits, run, on_globals, work,
  client_main, dhcp_close, second, close,
}
use internet_applications.Startup.Setup.{
  ClientReady, open_sockets, without, client_ready, client_setup_lem, closed_again,
}

-- The mode leaves the socket and the calls alone, or closes the socket and ends the process.
abbrev Stays : {K : Type 0} {A : Type 0} → Process (Client K) → Ending (Client K) A → Type 0
Stays p (goes a p') = (p'.calls ≡ p.calls) × (p'.dhcp_socket ≡ p.dhcp_socket)
Stays p (exits code calls) = (code ≡ 1) × (calls ≡ close p.dhcp_socket ∷ p.calls)

run-Stays :
    {K : Type 0} {A : Type 0} (p : Process (Client K)) (m : Run (Option (A × Client K)))
    → Ensures (Stays p) (on_globals m p)
run-Stays p (ok (some (a, c))) = (refl, refl)
run-Stays p (ok none) = (refl, refl)
run-Stays p fault = tt
run-Stays p out_of_fuel = tt

choice-Stays :
    {K : Type 0} (p q : Process (Client K)) (b : Bool) (m n : Program (Client K) (Unit {0}))
    → Ensures (Stays p) (m q)
    → Ensures (Stays p) (n q)
    → Ensures (Stays p) ((if b then m else n) q)
choice-Stays p q true m n h k = h
choice-Stays p q false m n h k = k

module _ {K : Type 0} (sys : System) (dev : Device K) (stack : Packet) (events : List Event) where
  work-Stays :
      (argv : List String) (p : Process (Client K))
      → Ensures (Stays p) (work sys dev stack events argv p)
  unfolding work
  work-Stays [] p = (refl, refl)
  work-Stays (a ∷ []) p = (refl, refl)
  work-Stays (a ∷ b ∷ []) p = (refl, refl)
  work-Stays (a ∷ b ∷ o ∷ []) p =
      choice-Stays p p (str_eq o "--interact") (run (interact dev stack events))
        (if str_eq o "--default" then run (discover dev stack) else pure tt)
        (run-Stays p (interact dev stack events p.globals))
        (choice-Stays p p (str_eq o "--default") (run (discover dev stack)) (pure tt)
          (run-Stays p (discover dev stack p.globals)) (refl, refl))
  work-Stays (a ∷ b ∷ o ∷ s ∷ []) p =
      let q = record p {
        globals = record p.globals { dhcp_server_identifier = sys.inet_addr s };
      } in
      let rebinding = if str_eq o "--rebind" then run (rebind dev stack) else pure tt in
      let renewing = if str_eq o "--renew" then run (renew dev stack) else rebinding in
      let informing = if str_eq o "--inform" then run (inform dev stack) else renewing in
      choice-Stays p q (str_eq o "--release") (run (release dev stack)) informing
        (run-Stays q (release dev stack q.globals))
        (choice-Stays p q (str_eq o "--inform") (run (inform dev stack)) renewing
          (run-Stays q (inform dev stack q.globals))
          (choice-Stays p q (str_eq o "--renew") (run (renew dev stack)) rebinding
            (run-Stays q (renew dev stack q.globals))
            (choice-Stays p q (str_eq o "--rebind") (run (rebind dev stack)) (pure tt)
              (run-Stays q (rebind dev stack q.globals)) (refl, refl))))
  work-Stays (a ∷ b ∷ o ∷ s ∷ x ∷ rest) p = (refl, refl)

  -- How a run ends: one that returns, gives 0 and has closed its socket. One that exits with 0
  -- has made no call; one that exits with 1 has closed its socket.
  abbrev pub EndsWell : (name : String) → Process (Client K) → Ending (Client K) ℕ → Type 0
  EndsWell name p (goes code p') = (code ≡ 0) × (open_sockets p'.calls ≡ open_sockets p.calls)
  EndsWell name p (exits code calls) =
      ((code ≡ 0) × (calls ≡ p.calls)) ⊎ ((code ≡ 1) × (open_sockets calls ≡ open_sockets p.calls))

  closes :
      (name : String) (p : Process (Client K)) (r : Run (Ending (Client K) (Unit {0})))
      → ClientReady sys name
      → Ensures (Stays (client_ready sys name p)) r
      → Ensures (EndsWell name p) (continue r (λ u. dhcp_close >>= λ v. pure 0))
  unfolding dhcp_close
  closes name p (ok (goes u q)) ready (calls, fd) = (
    refl,
    ap (λ d. without d (open_sockets q.calls)) fd
        ∙ ap (λ cs. without sys.socket (open_sockets cs)) calls
        ∙ closed_again sys name p ready.opened,
  )
  closes name p (ok (exits code calls)) ready (one, same) =
      inr (one, ap open_sockets same ∙ closed_again sys name p ready.opened)
  closes name p fault ready stays = tt
  closes name p out_of_fuel ready stays = tt

  -- `main` of the client, on a name of at most 15 bytes, whatever the system, the interface and the server
  -- do, and unless the mode faults: if it returns, it returns 0 and has closed the socket that it opened. If it exits with 0, it has
  -- made no call, and if it exits with 1, it has closed the socket if it could open one.
  pub client_main_ends :
      (argv : List String) (p : Process (Client K))
      → len (second argv) < 16
      → Ensures (EndsWell (second argv) p) (client_main sys dev stack events argv p)
  unfolding client_main
  client_main_ends argv p short = elim (Bool-cases (sys.geteuid == 0)) [
    | inr e ↦ rw e (inl (refl, refl))
    | inl e ↦ elim (Bool-cases (ltb (length argv) 3 || ltb 4 (length argv))) [
      | inl e₁ ↦ rw (e, e₁) (inl (refl, refl))
      | inr e₁ ↦ elim (client_setup_lem sys (second argv) p short) [
        | inr (broken, (calls, ends, closed)) ↦ rw (e, e₁, ends) (inr (refl, closed))
        | inl (ready, ends) ↦
            let q = client_ready sys (second argv) p in
            rw (e, e₁, ends)
              (closes (second argv) p (work sys dev stack events argv q) ready (work-Stays argv q))
      ]
    ]
  ]
