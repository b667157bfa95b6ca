-- ===== src/Daemon/Listen/Balance.antt =====
-- The listeners of cmd/daemon.go: what is bound is closed again, and which port serves whom.
use mathlib.Core.List.{append_assoc, append-nil}
use claviger.Prelude.{
  ℕ, ◌+◌, suc, String, ◌≡◌, refl, sym, ◌∙◌, Bool, false, List, [], ◌∷◌, ◌++◌, Option, none, some,
  Error, Result, ok, err, count, count-append, arith,
}
use claviger.Daemon.Listen.{
  Address, loopback, unix, NetEvent, bound, closed, Net, Running, closes, close_all, joined,
  bind_next, bind_gateways, after_chmod, after_socket, bind_control, ended, until_end, with_control,
  begin, serve_until_end,
}

module _ (p : Address → Bool) where
  abbrev pub binds : NetEvent → Bool
  binds (bound a) = p a
  binds (closed a) = false

  abbrev pub unbinds : NetEvent → Bool
  unbinds (bound a) = false
  unbinds (closed a) = p a

  count-closes :
      (ls : List Address) → (count binds (closes ls) ≡ 0) × (count unbinds (closes ls) ≡ count p ls)
  unfolding closes
  count-closes [] = (refl, refl)
  count-closes (a ∷ ls) = omega (arith, count-closes ls)

  -- What is bound and not closed is what is open.
  abbrev IsBalanced : {W : Type 0} → Running W → Type 0
  IsBalanced d = count binds d.events ≡ count unbinds d.events + count p d.listeners

  -- All that was bound is closed.
  abbrev IsClosed : {W : Type 0} → Running W → Type 0
  IsClosed d = count binds d.events ≡ count unbinds d.events

  close_all-IsClosed : {W : Type 0} (d : Running W) → IsBalanced d → IsClosed (close_all d)
  unfolding close_all
  close_all-IsClosed d b = omega (
    arith,
    b,
    count-closes d.listeners,
    count-append binds d.events (closes d.listeners),
    count-append unbinds d.events (closes d.listeners),
  )

  -- What an exit leaves open: nothing after an error.
  abbrev Tidy : {W : Type 0} → Result (Unit {0}) × Running W → Type 0
  Tidy (ok u, d) = IsBalanced d
  Tidy (err x, d) = IsClosed d

  module _ {W : Type 0} (net : Net W) where
    joined-IsBalanced :
        (a : Address) (d : Running W) (w : W) → IsBalanced d → IsBalanced (joined net a d w)
    joined-IsBalanced a d w b = omega (
      arith,
      b,
      count-append binds d.events (bound a ∷ []),
      count-append unbinds d.events (bound a ∷ []),
      count-append p d.listeners (a ∷ []),
    )

    bind_next-Tidy :
        (id : String) (port : ℕ) (next : Running W → Result (Unit {0}) × Running W) (d : Running W)
        (out : Result (Unit {0}) × W)
        → ((d : Running W) → IsBalanced d → Tidy (next d))
        → IsBalanced d
        → Tidy (bind_next net id port next d out)
    bind_next-Tidy id port next d (ok u, w) k b = k _ (joined-IsBalanced (loopback port) d w b)
    bind_next-Tidy id port next d (err x, w) k b = close_all-IsClosed (record d { world = w }) b

    bind_gateways-Tidy :
        (ids : List String) (port : ℕ) (d : Running W)
        → IsBalanced d
        → Tidy (bind_gateways net ids port d)
    unfolding bind_gateways
    bind_gateways-Tidy [] port d b = b
    bind_gateways-Tidy (id ∷ ids) port d b =
        bind_next-Tidy id port (bind_gateways net ids (suc port)) d
          (net.listen (loopback port) d.world) (λ d b. bind_gateways-Tidy ids (suc port) d b) b

    after_chmod-Tidy :
        (path : String) (d : Running W) (out : Result (Unit {0}) × W)
        → IsBalanced d
        → Tidy (after_chmod net path d out)
    after_chmod-Tidy path d (ok u, w) b = joined-IsBalanced (unix path) d w b
    after_chmod-Tidy path d (err x, w) b =
        close_all-IsClosed
          (record d { world = w; events = d.events ++ bound (unix path) ∷ closed (unix path) ∷ [] })
          (omega (
            arith,
            b,
            count-append binds d.events (bound (unix path) ∷ closed (unix path) ∷ []),
            count-append unbinds d.events (bound (unix path) ∷ closed (unix path) ∷ []),
          ))

    after_socket-Tidy :
        (path : String) (d : Running W) (out : Result (Unit {0}) × W)
        → IsBalanced d
        → Tidy (after_socket net path d out)
    after_socket-Tidy path d (ok u, w) b = after_chmod-Tidy path d (net.chmod path w) b
    after_socket-Tidy path d (err x, w) b = close_all-IsClosed (record d { world = w }) b

    with_control-Tidy :
        (path : String) (out : Result (Unit {0}) × Running W)
        → Tidy out
        → Tidy (with_control net path out)
    unfolding bind_control
    with_control-Tidy path (err x, d) t = t
    with_control-Tidy path (ok u, d) t =
        after_socket-Tidy path d (net.listen (unix path) (net.remove_file path d.world)) t

    ended-IsClosed :
        (d : Running W) (out : Option Error × W) → IsBalanced d → IsClosed (ended net d out).1
    ended-IsClosed d (none, w) b = close_all-IsClosed (record d { world = w }) b
    ended-IsClosed d (some x, w) b = close_all-IsClosed (record d { world = w }) b

    until_end-IsClosed :
        (out : Result (Unit {0}) × Running W) → Tidy out → IsClosed (until_end net out).1
    until_end-IsClosed (err x, d) t = t
    until_end-IsClosed (ok u, d) t = ended-IsClosed d (net.wait d.world) t

    -- However the daemon ends, by a signal, by a listener that fails, or by an address or a socket
    -- that it cannot have, each listener that it opened has been closed: on any set of addresses,
    -- as many are closed as were bound.
    pub serve_until_end_lem :
        (ids : List String) (base_port : ℕ) (socket : String) (w : W)
        → count binds (serve_until_end net ids base_port socket w).1.events
          ≡ count unbinds (serve_until_end net ids base_port socket w).1.events
    unfolding serve_until_end
    serve_until_end_lem ids base_port socket w =
        until_end-IsClosed (with_control net socket (bind_gateways net ids base_port (begin net w)))
          (with_control-Tidy socket (bind_gateways net ids base_port (begin net w))
            (bind_gateways-Tidy ids base_port (begin net w) refl))

-- The identities on the ports from this one on.
abbrev pub numbered : List String → ℕ → List (String × Address)
numbered [] port = []
numbered (id ∷ ids) port = (id, loopback port) ∷ numbered ids (suc port)

module _ {W : Type 0} (net : Net W) where
  bind_next-serving :
      (id : String) (port : ℕ) (next : Running W → Result (Unit {0}) × Running W) (d : Running W)
      (out : Result (Unit {0}) × W) (more : List (String × Address))
      → ((d : Running W) → (next d).0 ≡ ok tt → (next d).1.serving ≡ d.serving ++ more)
      → (bind_next net id port next d out).0 ≡ ok tt
      → (bind_next net id port next d out).1.serving ≡ d.serving ++ (id, loopback port) ∷ more
  bind_next-serving id port next d (ok u, w) more k h =
      k _ h ∙ append_assoc d.serving ((id, loopback port) ∷ []) more
  bind_next-serving id port next d (err x, w) more k h = cc

  -- When every bind succeeds, the identities are served on consecutive ports in their order, from
  -- the base port on, after those that were served before.
  pub bind_gateways-serving :
      (ids : List String) (port : ℕ) (d : Running W)
      → (bind_gateways net ids port d).0 ≡ ok tt
      → (bind_gateways net ids port d).1.serving ≡ d.serving ++ numbered ids port
  unfolding bind_gateways
  bind_gateways-serving [] port d h = sym (append-nil d.serving)
  bind_gateways-serving (id ∷ ids) port d h =
      bind_next-serving id port (bind_gateways net ids (suc port)) d
        (net.listen (loopback port) d.world) (numbered ids (suc port))
        (λ d h. bind_gateways-serving ids (suc port) d h) h
