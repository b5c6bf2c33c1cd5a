-- ===== src/Startup/ServerMain.antt =====
-- `main` of dhcp-server.c: it serves only on a socket that is set up.
use Prim.Native.String.{String, len}
use internet_applications.Base.{
  ◌<◌, ◌≡◌, refl, true, false, not, ◌||◌, Option, List, [], ◌∷◌, Bytes, Run, ok, fault, out_of_fuel,
  ◌==◌, length, ◌⊎◌, inl, inr, Bool-cases, Run-cases, ℤ, Ensures, is_negative,
}
use text.Mathlib.Text.{◌==◌ as str_eq}
use internet_applications.Lease.Table.{IsTable}
use internet_applications.Reply
use internet_applications.Reply.{Server, Env}
use internet_applications.Server.{Sent, round}
use internet_applications.Server.Invariant.{Reach, here, next, Reach-IsTable, dhcp_setup-IsTable}
use internet_applications.Startup.{
  SocketOption, System, Process, Ending, goes, exits, continue, pure, serve, server_main, second,
  bind_to_device,
}
use internet_applications.Startup.Setup.{ServerReady, server_calls, server_ready, server_setup_lem}

-- After some rounds: the server's state is reached from that after the set-up, and the calls stay.
abbrev Served : Process Server → Server → Ending Server (List (Option Sent)) → Type 0
Served p s₀ (goes outs q) = Reach s₀ q.globals × (q.calls ≡ p.calls)
Served p s₀ (exits code calls) = ⊥

more-Served :
    (p : Process Server) (s₀ : Server) (out : Option Sent)
    (r : Run (Ending Server (List (Option Sent))))
    → Ensures (Served p s₀) r
    → Ensures (Served p s₀) (continue r (λ outs. pure (out ∷ outs)))
more-Served p s₀ out (ok (goes outs q)) h = h
more-Served p s₀ out (ok (exits code calls)) h = h
more-Served p s₀ out fault h = tt
more-Served p s₀ out out_of_fuel h = tt

serve-Served :
    (rounds : List (Env × Option Bytes)) (p : Process Server) (s₀ : Server)
    → Reach s₀ p.globals
    → Ensures (Served p s₀) (serve rounds p)
unfolding serve
serve-Served [] p s₀ h = (h, refl)
serve-Served ((e, d) ∷ rounds) p s₀ h = elim (Run-cases (round e d p.globals)) [
  | inl ((s, out), run) ↦
      let q = record p { globals = s } in
      rw (run, serve)
        (more-Served p s₀ out (serve rounds q) (serve-Served rounds q s₀ (next e d h run)))
  | inr (inl run) ↦ rw (run, serve) tt
  | inr (inr run) ↦ rw (run, serve) tt
]

module _ (sys : System) where
  -- How a run of the server ends, or stands after some rounds.
  abbrev pub Serves : (name : String) → Process Server → Ending Server (List (Option Sent)) → Type 0
  Serves name p (goes outs q) =
      (is_negative sys.socket ≡ false)
      × ServerReady sys name
      × (q.calls ≡ server_calls sys name p)
      × IsTable q.globals.leases
  Serves name p (exits code calls) =
      ((code ≡ 0) × (calls ≡ p.calls)) ⊎ ((code ≡ 1) × (ServerReady sys name → ⊥))

  -- What the manual says of `setsockopt`: it fails on what is no descriptor.
  abbrev pub RefusesBad : Type 0
  RefusesBad =
      (fd : ℤ) (option : SocketOption)
      → is_negative fd ≡ true
      → is_negative (sys.setsockopt fd option) ≡ true

  served :
      (name : String) (p : Process Server) (r : Run (Ending Server (List (Option Sent))))
      → RefusesBad
      → ServerReady sys name
      → Ensures (Served (server_ready sys name p) Reply.dhcp_setup) r
      → Ensures (Serves name p) r
  served name p (ok (goes outs q)) refuses ready (reach, same) = (
    elim (Bool-cases (is_negative sys.socket)) [
      | inl bad ↦
          absurd (let refused = refuses sys.socket (bind_to_device name) bad in cc (ready.named))
      | inr good ↦ good
    ],
    ready,
    same,
    Reach-IsTable reach dhcp_setup-IsTable,
  )
  served name p (ok (exits code calls)) refuses ready h = absurd h
  served name p fault refuses ready h = tt
  served name p out_of_fuel refuses ready h = tt

  -- On a name of at most 15 bytes, whatever it receives and as long as no round faults, the server gets to its rounds only if it has a
  -- socket and no other call of the set-up failed, and in these its table stays well-formed. It
  -- exits with 0 before any call, and with 1 only where such a call failed. A socket that could not be made,
  -- which is only reported, is caught by the next call, since that fails on what is no descriptor.
  pub server_main-Serves :
      (rounds : List (Env × Option Bytes)) (argv : List String) (p : Process Server)
      → RefusesBad
      → len (second argv) < 16
      → Ensures (Serves (second argv) p) (server_main sys rounds argv p)
  unfolding server_main
  server_main-Serves rounds argv p refuses short = elim (Bool-cases (sys.geteuid == 0)) [
    | inr e ↦ rw e (inl (refl, refl))
    | inl e ↦ elim (Bool-cases (not (length argv == 2) || str_eq (second argv) "-h")) [
      | inl e₁ ↦ rw (e, e₁) (inl (refl, refl))
      | inr e₁ ↦ elim (server_setup_lem sys (second argv) p short) [
        | inr (broken, (calls, ends)) ↦ rw (e, e₁, ends) (inr (refl, broken))
        | inl (ready, ends) ↦
            let q = server_ready sys (second argv) p in
            rw (e, e₁, ends)
              (served (second argv) p (serve rounds q) refuses ready
                (serve-Served rounds q Reply.dhcp_setup here))
      ]
    ]
  ]
