-- ===== src/Startup/Setup.antt =====
-- `dhcp_setup` of the two programs: the socket is ready, or the process exits.
use Prim.Native.String.{String, len}
use internet_applications.Base.{
  ℕ, ◌<◌, ◌≡◌, refl, Bool, true, false, List, [], ◌∷◌, ok, arith, ◌==◌, lt→ltb, if◌then◌else◌, ◌⊎◌,
  inl, inr, Bool-cases, ℤ, pos, negsuc, is_negative,
}
use internet_applications.Words.{htonl, htons}
use internet_applications.Protocol.{dhcp_server_port, dhcp_client_port, inaddr_any, max_wait_time}
use internet_applications.Client
use internet_applications.Client.{Client}
use internet_applications.Reply
use internet_applications.Reply.{Server}
use internet_applications.Startup.{
  SocketOption, receive_timeout, bind_to_device, broadcast, SystemCall, socket, setsockopt, bind,
  signal, close, System, Process, goes, exits, open_socket, set_option, copy_name, bind_address,
  dhcp_close, client_setup, server_setup,
}

abbrev pub same : ℤ → ℤ → Bool
same (pos a) (pos b) = a == b
same (pos a) (negsuc b) = false
same (negsuc a) (pos b) = false
same (negsuc a) (negsuc b) = a == b

same_refl : (a : ℤ) → same a a ≡ true
same_refl (pos a) = ground arith
same_refl (negsuc a) = ground arith

abbrev pub without : ℤ → List ℤ → List ℤ
without fd [] = []
without fd (x ∷ xs) = if same fd x then xs else x ∷ without fd xs

-- The descriptors that were given by `socket` and not closed since.
abbrev pub open_sockets : List SystemCall → List ℤ
open_sockets [] = []
open_sockets (socket fd ∷ cs) = if is_negative fd then open_sockets cs else fd ∷ open_sockets cs
open_sockets (close fd ∷ cs) = without fd (open_sockets cs)
open_sockets (setsockopt fd option ∷ cs) = open_sockets cs
open_sockets (bind fd addr port ∷ cs) = open_sockets cs
open_sockets (signal ∷ cs) = open_sockets cs

without_self : (fd : ℤ) (fds : List ℤ) → without fd (fd ∷ fds) ≡ fds
without_self fd fds = rw (same_refl fd) refl

module _ (sys : System) (name : String) where
  abbrev fails : SocketOption → Bool
  fails option = is_negative (sys.setsockopt sys.socket option)

  abbrev unbound : (port : ℕ) → Bool
  unbound port = is_negative (sys.bind sys.socket (htonl inaddr_any) (htons port))

  -- No call of the client's set-up fails.
  pub record ClientReady : Type 0 where
    pub opened : is_negative sys.socket ≡ false
    pub timed : fails (receive_timeout max_wait_time) ≡ false
    pub named : fails (bind_to_device name) ≡ false
    pub broadcasts : fails broadcast ≡ false
    pub bound : unbound dhcp_client_port ≡ false

  pub record ServerReady : Type 0 where
    pub named : fails (bind_to_device name) ≡ false
    pub broadcasts : fails broadcast ≡ false
    pub bound : unbound dhcp_server_port ≡ false

  module _ {K : Type 0} (p : Process (Client K)) where
    abbrev pub client_calls : List SystemCall
    client_calls =
        signal
        ∷ bind sys.socket (htonl inaddr_any) (htons dhcp_client_port)
        ∷ setsockopt sys.socket broadcast
        ∷ setsockopt sys.socket (bind_to_device name)
        ∷ setsockopt sys.socket (receive_timeout max_wait_time)
        ∷ socket sys.socket
        ∷ p.calls

    -- The process after the set-up.
    abbrev pub client_ready : Process (Client K)
    client_ready = record {
      dhcp_socket = sys.socket;
      calls = client_calls;
      globals = Client.dhcp_setup p.globals;
    }

    pub client_setup-ready :
        len name < 16 → ClientReady → client_setup sys name p ≡ ok (goes tt client_ready)
    unfolding client_setup open_socket set_option copy_name bind_address dhcp_close
    client_setup-ready short r =
        rw (r.opened, r.timed, lt→ltb (len name) 16 short, r.named, r.broadcasts, r.bound) refl

    -- The process ends with the code 1, and what it opened is closed.
    abbrev Closes : Type 0
    Closes =
        (calls : List SystemCall) × (client_setup sys name p ≡ ok (exits 1 calls))
        × (open_sockets calls ≡ open_sockets p.calls)

    pub closed_again :
        is_negative sys.socket ≡ false
        → without sys.socket (open_sockets (socket sys.socket ∷ p.calls)) ≡ open_sockets p.calls
    closed_again e = rw (e, same_refl sys.socket) refl

    -- The set-up succeeds where no call fails, and otherwise the process ends with the code 1 and every
    -- socket that it opened is closed.
    pub client_setup_lem :
        len name < 16
        → (ClientReady × (client_setup sys name p ≡ ok (goes tt client_ready)))
          ⊎ ((ClientReady → ⊥) × Closes)
    unfolding client_setup open_socket set_option copy_name bind_address dhcp_close
    client_setup_lem short =
        let fits = lt→ltb (len name) 16 short in
        let opening = socket sys.socket ∷ p.calls in
        let timing = setsockopt sys.socket (receive_timeout max_wait_time) ∷ opening in
        let naming = setsockopt sys.socket (bind_to_device name) ∷ timing in
        let broadcasting = setsockopt sys.socket broadcast ∷ naming in
        let binding = bind sys.socket (htonl inaddr_any) (htons dhcp_client_port) ∷ broadcasting in
        elim (Bool-cases (is_negative sys.socket)) [
          | inl e ↦ inr (λ r. cc (r.opened), (opening, rw e refl, rw e refl))
          | inr e ↦ elim (Bool-cases (fails (receive_timeout max_wait_time))) [
            | inl e₁ ↦
                inr
                  (λ r. cc (r.timed), (close sys.socket ∷ timing, rw (e, e₁) refl, closed_again e))
            | inr e₁ ↦ elim (Bool-cases (fails (bind_to_device name))) [
              | inl e₂ ↦ inr (
                λ r. cc (r.named),
                (close sys.socket ∷ naming, rw (e, e₁, fits, e₂) refl, closed_again e),
              )
              | inr e₂ ↦ elim (Bool-cases (fails broadcast)) [
                | inl e₃ ↦ inr (
                  λ r. cc (r.broadcasts),
                  (close sys.socket ∷ broadcasting, rw (e, e₁, fits, e₂, e₃) refl, closed_again e),
                )
                | inr e₃ ↦ elim (Bool-cases (unbound dhcp_client_port)) [
                  | inl e₄ ↦ inr (
                    λ r. cc (r.bound),
                    (close sys.socket ∷ binding, rw (e, e₁, fits, e₂, e₃, e₄) refl, closed_again e),
                  )
                  | inr e₄ ↦
                      let r : ClientReady = record {
                        opened = e;
                        timed = e₁;
                        named = e₂;
                        broadcasts = e₃;
                        bound = e₄;
                      } in
                      inl (r, client_setup-ready short r)
                ]
              ]
            ]
          ]
        ]

  module _ (p : Process Server) where
    abbrev pub server_calls : List SystemCall
    server_calls =
        bind sys.socket (htonl inaddr_any) (htons dhcp_server_port)
        ∷ setsockopt sys.socket broadcast
        ∷ setsockopt sys.socket (bind_to_device name)
        ∷ socket sys.socket
        ∷ p.calls

    abbrev pub server_ready : Process Server
    server_ready = record {
      dhcp_socket = sys.socket;
      calls = server_calls;
      globals = Reply.dhcp_setup;
    }

    abbrev Ends : Type 0
    Ends = (calls : List SystemCall) × (server_setup sys name p ≡ ok (exits 1 calls))

    pub server_setup_lem :
        len name < 16
        → (ServerReady × (server_setup sys name p ≡ ok (goes tt server_ready)))
          ⊎ ((ServerReady → ⊥) × Ends)
    unfolding server_setup open_socket set_option copy_name bind_address
    server_setup_lem short =
        let fits = lt→ltb (len name) 16 short in
        let naming = setsockopt sys.socket (bind_to_device name) ∷ socket sys.socket ∷ p.calls in
        let broadcasting = setsockopt sys.socket broadcast ∷ naming in
        elim (Bool-cases (fails (bind_to_device name))) [
          | inl e ↦ inr (λ r. cc (r.named), (naming, rw (fits, e) refl))
          | inr e ↦ elim (Bool-cases (fails broadcast)) [
            | inl e₁ ↦ inr (λ r. cc (r.broadcasts), (broadcasting, rw (fits, e, e₁) refl))
            | inr e₁ ↦ elim (Bool-cases (unbound dhcp_server_port)) [
              | inl e₂ ↦ inr (λ r. cc (r.bound), (server_calls, rw (fits, e, e₁, e₂) refl))
              | inr e₂ ↦
                  inl (record { named = e; broadcasts = e₁; bound = e₂ }, rw (fits, e, e₁, e₂) refl)
            ]
          ]
        ]
