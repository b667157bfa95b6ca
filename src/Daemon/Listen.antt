-- ===== src/Daemon/Listen.antt =====
-- cmd/daemon.go: the listeners of the daemon, one for each identity and one for the control socket,
-- and how each exit closes them. What the daemon opens and closes is kept as a record of events.
pub mod Balance
mod Examples
use claviger.Prelude.{
  ℕ, ◌+◌, suc, String, ◌≡◌, refl, sym, ap, ◌∙◌, Bool, true, false, List, [], ◌∷◌, ◌++◌, Option,
  none, some, Error, Result, ok, err, if◌then◌else◌, count, count-append, length, arith,
}

-- An address: a loopback port, or the path of a Unix socket.
pub data Address : Type 0 where
  loopback : ℕ → Address
  unix : String → Address

pub data NetEvent : Type 0 where
  bound : Address → NetEvent
  closed : Address → NetEvent

-- What the listeners take from outside: whether a bind succeeds, os.Chmod of the socket, and the
-- error that ends the wait, `none` for a signal.
pub record Net (W : Type 0) : Type 0 where
  pub listen : Address → W → Result (Unit {0}) × W
  pub remove_file : String → W → W
  pub chmod : String → W → Result (Unit {0}) × W
  pub wait : W → Option Error × W

-- The running daemon: the open listeners, in the order of the binds, the identities whose gateway
-- each serves, and all that was bound and closed.
pub record Running (W : Type 0) : Type 0 where
  pub world : W
  pub listeners : List Address
  pub serving : List (String × Address)
  pub events : List NetEvent

-- l.Close() of each listener in turn
unfoldable pub closes : List Address → List NetEvent
closes [] = []
closes (a ∷ more) = closed a ∷ closes more

-- closeAll
unfoldable pub close_all : {W : Type 0} → Running W → Running W
close_all d = record d { events = d.events ++ closes d.listeners }

module _ {W : Type 0} (net : Net W) where
  -- Bind an address; the listener joins the open ones.
  abbrev joined : Address → Running W → W → Running W
  joined a d w = record d {
    world = w;
    listeners = d.listeners ++ a ∷ [];
    events = d.events ++ bound a ∷ [];
  }

  abbrev bind_next :
      String
      → ℕ
      → (Running W → Result (Unit {0}) × Running W)
      → Running W
      → Result (Unit {0}) × W
      → Result (Unit {0}) × Running W
  bind_next id port next d (err x, w) = (err x, close_all (record d { world = w }))
  bind_next id port next d (ok u, w) =
      next (record (joined (loopback port) d w) { serving = d.serving ++ (id, loopback port) ∷ [] })

  -- The loop over the identities, from this port on.
  unfoldable pub bind_gateways : List String → ℕ → Running W → Result (Unit {0}) × Running W
  bind_gateways [] port d = (ok tt, d)
  bind_gateways (id ∷ ids) port d =
      bind_next id port (bind_gateways ids (suc port)) d (net.listen (loopback port) d.world)

  abbrev after_chmod : String → Running W → Result (Unit {0}) × W → Result (Unit {0}) × Running W
  after_chmod path d (ok u, w) = (ok tt, joined (unix path) d w)
  after_chmod path d (err x, w) = (
    err x,
    close_all
        (record d { world = w; events = d.events ++ bound (unix path) ∷ closed (unix path) ∷ [] }),
  )

  abbrev after_socket : String → Running W → Result (Unit {0}) × W → Result (Unit {0}) × Running W
  after_socket path d (err x, w) = (err x, close_all (record d { world = w }))
  after_socket path d (ok u, w) = after_chmod path d (net.chmod path w)

  -- The control socket, its stale file removed first.
  unfoldable pub bind_control : String → Running W → Result (Unit {0}) × Running W
  bind_control path d =
      let w = net.remove_file path d.world in after_socket path d (net.listen (unix path) w)

  abbrev ended : Running W → Option Error × W → Result (Unit {0}) × Running W
  ended d (none, w) = (ok tt, close_all (record d { world = w }))
  ended d (some x, w) = (err x, close_all (record d { world = w }))

  abbrev until_end : Result (Unit {0}) × Running W → Result (Unit {0}) × Running W
  until_end (err x, d) = (err x, d)
  until_end (ok u, d) = ended d (net.wait d.world)

  abbrev with_control : String → Result (Unit {0}) × Running W → Result (Unit {0}) × Running W
  with_control path (err x, d) = (err x, d)
  with_control path (ok u, d) = bind_control path d

  abbrev pub begin : W → Running W
  begin w = record { world = w; listeners = []; serving = []; events = [] }

  -- The daemon from its first bind to its end.
  unfoldable pub serve_until_end : List String → ℕ → String → W → Result (Unit {0}) × Running W
  serve_until_end ids base_port socket w =
      until_end (with_control socket (bind_gateways ids base_port (begin w)))
