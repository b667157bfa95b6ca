-- ===== src/Daemon/Busy/Apart.antt =====
-- The requests that a daemon of cmd/daemon.go serves at the same time stay apart.
use claviger.Prelude.Maps.{lookup}
use claviger.Prelude.{String, ◌≡◌, List, [], ◌∷◌, ◌++◌, ok, All, All-append}
use claviger.Effect.Task.{Task, act}
use claviger.Store.Owned.{AllOwned}
use claviger.Store.Owned.Calls.{refresh_expiring-AllOwned}
use claviger.Config.{Builder}
use claviger.Config.Secrets.{Sources}
use claviger.Gateway.State.{Config, Live, Incoming}
use claviger.Gateway.Serve.{Reply}
use claviger.Gateway.Setup.{Parts}
use claviger.Gateway.Own.{Acts, Rightful, Trivial}
use claviger.Gateway.Tasks.Behalf.{IsOurTask, serve_task-IsOurTask}
use claviger.Gateway.Alone.{Like}
use claviger.Gateway.Tasks.Alone.{IsAlone, serve_task-IsAlone}
use claviger.Control.{Wire}
use claviger.Daemon.Run.{Machine, Flags, Prepared, prepare}
use claviger.Daemon.Life.{sweep, here}
use claviger.Daemon.Life.Isolation.{begin, ask_creds-AllOwned, prepare-AllOwned}
use claviger.Daemon.Busy.{
  Job, Busy, Moves, Runs, arrives, acts, answers, asks, ticks, elapses, at_start, on,
}

All-left {ℓ κ} : {A : Type ℓ} (P : A → Type κ) (xs ys : List A) → All P (xs ++ ys) → All P xs
All-left P [] ys h = tt
All-left P (x ∷ xs) ys (h, hs) = (h, All-left P xs ys hs)

All-right {ℓ κ} : {A : Type ℓ} (P : A → Type κ) (xs ys : List A) → All P (xs ++ ys) → All P ys
All-right P [] ys h = h
All-right P (x ∷ xs) ys (h, hs) = All-right P xs ys hs

module _ {W : Type 0} (cfg : Config W) (wire : Wire) where
  -- What is left of the request acts on behalf of its identity, and reads nothing of others.
  abbrev IsLoyal : Job W → Type 0
  IsLoyal j =
      IsOurTask cfg j.identity j.request (lookup j.identity cfg.recipes) Trivial j.left
      × IsAlone j.identity j.left

  -- Every session in the store is of the identity that it is for, and every request acts for its own.
  abbrev IsOrderly : Busy W → Type 0
  IsOrderly b = AllOwned b.shared.store.entries × All IsLoyal b.jobs

  Moves-IsOrderly : {b c : Busy W} → Moves cfg wire b c → IsOrderly b → IsOrderly c
  unfolding sweep
  Moves-IsOrderly (arrives id r b) (owned, loyal) =
      (owned, ((serve_task-IsOurTask cfg id r, serve_task-IsAlone cfg id r), loyal))
  Moves-IsOrderly (acts id r m rest pre post g) (owned, loyal) =
      let behind = All-right IsLoyal pre _ loyal in
      let next = behind.0.0 g owned in
      (
        next.0.owned,
        All-append IsLoyal pre _ (All-left IsLoyal pre _ loyal)
            ((next.1, behind.0.1.1 g), behind.1),
      )
  Moves-IsOrderly (answers j pre post g) (owned, loyal) = (
    owned,
    All-append IsLoyal pre post (All-left IsLoyal pre _ loyal)
        (All-right IsLoyal pre (j ∷ post) loyal).1,
  )
  Moves-IsOrderly (asks path b) (owned, loyal) =
      (ask_creds-AllOwned cfg wire path b.shared owned, loyal)
  Moves-IsOrderly (ticks within b) (owned, loyal) =
      (refresh_expiring-AllOwned cfg.env.now within b.shared.store b.shared.world owned, loyal)
  Moves-IsOrderly (elapses w b) (owned, loyal) = (owned, loyal)

  Runs-IsOrderly : {start b : Busy W} → Runs cfg wire start b → IsOrderly start → IsOrderly b
  Runs-IsOrderly at_start h = h
  Runs-IsOrderly (on before next) h = Moves-IsOrderly next (Runs-IsOrderly before h)

module _ {W J P C : Type 0} (machine : Machine) (src : Sources) (lib : Builder W J P C)
    (parts : Parts W P C) (wire : Wire) where
  -- A prepared daemon that serves nothing yet.
  abbrev pub idle : Prepared W → W → Busy W
  idle p w = record { shared = begin machine src lib parts wire p w; jobs = [] }

  -- Whatever the configuration and the flags, and however many requests a daemon serves at the same
  -- time, whose actions follow one another in any order, with calls of the control socket, refresh
  -- ticks and changes of the world between them: the next action of each request sends nothing but
  -- the token request of its identity's policy and the client's request, each with a session
  -- applied, or, for an identity without a recipe, the client's request as it came; and it changes
  -- no entry and no cached token of another identity. It does not depend on the sessions and tokens
  -- of others: in any state with the same entry and token of the identity, and the same limits,
  -- world and records, whatever other identities it has, the action gives the same value and sends
  -- the same, and the entry, the token, the world and the audit records are the same after it.
  pub prepare-interleaved :
      {B : Type 0} (f : Flags) (p : Prepared W) (w : W) (g other : Live W) (pre post : List (Job W))
      (id : String) (r : Incoming) (m : Live W → B × Live W) (rest : B → Task (Live W) Reply)
      → prepare machine src lib parts f ≡ ok p
      → Runs p.gateway wire (idle p w) (record {
        shared = g;
        jobs = pre ++ record { identity = id; request = r; left = act m rest } ∷ post;
      })
      → Like id g other
      → Acts (Rightful p.gateway id r (lookup id p.gateway.recipes)) id g (m g).1
        × ((m g).0 ≡ (m other).0)
        × Like id (m g).1 (m other).1
  prepare-interleaved f p w g other pre post id r m rest h runs like =
      let (owned, loyal) = Runs-IsOrderly p.gateway wire runs (
        prepare-AllOwned machine src lib parts wire f p w (begin machine src lib parts wire p w) h
            here,
        tt,
      ) in
      let job = (All-right (IsLoyal p.gateway wire) pre _ loyal).0 in
      let (value, left) = job.1.0 g other like in ((job.0 g owned).0, value, left)
