-- ===== src/Daemon/Busy.antt =====
-- A busy daemon of cmd/daemon.go: any number of requests at once, which take their actions on the
-- shared state in any order, between those of the control socket, of the refresh loop and of the
-- world outside.
pub mod Apart
mod Examples
use claviger.Prelude.{ℕ, String, List, [], ◌∷◌, ◌++◌}
use claviger.Effect.Task.{Task, done, act}
use claviger.Gateway.State.{Config, Live, Incoming}
use claviger.Gateway.Serve.{Reply}
use claviger.Gateway.Tasks.{serve_task}
use claviger.Control.{Wire}
use claviger.Daemon.Life.{ask_creds, sweep}

-- A request that is being served: the identity of the gateway it came to, and what is left to do.
pub record Job (W : Type 0) : Type 1 where
  pub identity : String
  pub request : Incoming
  pub left : Task (Live W) Reply

pub record Busy (W : Type 0) : Type 1 where
  pub shared : Live W
  pub jobs : List (Job W)

module _ {W : Type 0} (cfg : Config W) (wire : Wire) where
  -- A request as its handler begins with it.
  abbrev pub new_job : String → Incoming → Job W
  new_job id r = record { identity = id; request = r; left = serve_task cfg id r }

  -- What happens next: a request comes in, one of those that are served takes its next action or is
  -- answered, the control socket is asked, the refresh loop ticks, or the world changes.
  pub data Moves : Busy W → Busy W → Type 1 where
    arrives :
        (id : String) (r : Incoming) (b : Busy W)
        → Moves b (record b { jobs = new_job id r ∷ b.jobs })
    acts :
        {B : Type 0} (id : String) (r : Incoming) (m : Live W → B × Live W)
        (rest : B → Task (Live W) Reply) (pre post : List (Job W)) (g : Live W)
        → Moves
            (record {
              shared = g;
              jobs = pre ++ record { identity = id; request = r; left = act m rest } ∷ post;
            })
            (record {
              shared = (m g).1;
              jobs = pre ++ record { identity = id; request = r; left = rest (m g).0 } ∷ post;
            })
    answers :
        (j : Job W) (pre post : List (Job W)) (g : Live W)
        → Moves
            (record { shared = g; jobs = pre ++ j ∷ post })
            (record { shared = g; jobs = pre ++ post })
    asks :
        (path : String) (b : Busy W)
        → Moves b (record b { shared = ask_creds cfg wire path b.shared })
    ticks :
        (within : ℕ) (b : Busy W) → Moves b (record b { shared = sweep cfg wire within b.shared })
    elapses : (w : W) (b : Busy W) → Moves b (record b { shared = record b.shared { world = w } })

  pub data Runs (start : Busy W) : Busy W → Type 1 where
    at_start : Runs start start
    on : {b c : Busy W} → Runs start b → Moves b c → Runs start c
