-- ===== src/Daemon/Life.antt =====
-- A running daemon of cmd/daemon.go: what its listeners, its control socket and its refresh loop do
-- to the state that they share, one call after the other and in any order.
pub mod Isolation
pub mod Roster
pub mod Ticks
mod Examples
use claviger.Prelude.{ℕ, String}
use claviger.Gateway.State.{Config, Live, Incoming}
use claviger.Gateway.Serve.{serve}
use claviger.Store.{Store, refresh_expiring}
use claviger.Control.{Wire, creds_handler}

module _ {W : Type 0} (cfg : Config W) (wire : Wire) where
  -- A GET of /creds/ on the control socket.
  unfoldable pub ask_creds : String → Live W → Live W
  ask_creds path g =
      let (reply, s, w) = creds_handler wire cfg.env.now path g.store g.world in
      record g { store = s; world = w }

  -- A tick of the refresh loop.
  unfoldable pub sweep : ℕ → Live W → Live W
  sweep within g =
      let (failures, s, w) = refresh_expiring cfg.env.now within g.store g.world in
      record g { store = s; world = w }

  -- What happens next: a request to the gateway of an identity, one to the control socket, a tick,
  -- or a change in the world outside, such as time that passes.
  pub data Happens : Live W → Live W → Type 0 where
    requested : (id : String) (r : Incoming) (g : Live W) → Happens g (serve cfg id r g).1
    asked : (path : String) (g : Live W) → Happens g (ask_creds path g)
    ticked : (within : ℕ) (g : Live W) → Happens g (sweep within g)
    elapsed : (w : W) (g : Live W) → Happens g (record g { world = w })

  pub data Reaches (start : Live W) : Live W → Type 0 where
    here : Reaches start start
    and_then : {g h : Live W} → Reaches start g → Happens g h → Reaches start h
