-- ===== src/Daemon/Listen/Examples.antt =====
-- The listeners of two identities.
use mathlib.Core.List.Perm
use mathlib.Core.Quot
use claviger.Prelude.{
  List, String, ℕ, ◌+◌, ◌≡◌, true, [], ◌∷◌, none, Result, ok, err, external, eqb, if◌then◌else◌,
  count,
}
use claviger.Recipe.{Recipe}
use claviger.Store.{Store, identities}
use claviger.Config.Sample
use claviger.Daemon.Startup.{register_all}
use claviger.Daemon.Ports.{served_names, serve_until_end-served_names}
use claviger.Daemon.Listen.{Address, loopback, unix, Net, serve_until_end}
use claviger.Daemon.Listen.Balance.{binds, unbinds, serve_until_end_lem}

-- A machine on which each port but 8889 is free.
abbrev bind_result : Address → Result (Unit {0})
bind_result (loopback port) =
    if eqb port 8889 then err (external "address already in use") else ok tt
bind_result (unix path) = ok tt

abbrev net : Net ℕ
net = record {
  listen = λ a w. (bind_result a, w + 1);
  remove_file = λ path w. w;
  chmod = λ path w. (ok tt, w);
  wait = λ w. (none, w);
}

serve_until_end_lem_example :
    count (binds (λ a. true)) (serve_until_end net ("alice" ∷ "bob" ∷ []) 8888 "s" 0).1.events
    ≡ count (unbinds (λ a. true)) (serve_until_end net ("alice" ∷ "bob" ∷ []) 8888 "s" 0).1.events
serve_until_end_lem_example = serve_until_end_lem (λ a. true) net ("alice" ∷ "bob" ∷ []) 8888 "s" 0

abbrev bob : Recipe ℕ
bob = record Sample.alice_recipe { identity = "bob" }

-- The map with both recipes, ranged over in the one order or in the other.
abbrev both : List (String × Recipe ℕ)
both = ("alice", Sample.alice_recipe) ∷ ("bob", bob) ∷ []

abbrev both_again : List (String × Recipe ℕ)
both_again = ("bob", bob) ∷ ("alice", Sample.alice_recipe) ∷ []

abbrev no_entries : Store ℕ
no_entries = record { entries = []; max_burst = 10; window = 60 }

serve_until_end-served_names_example :
    serve_until_end net (identities (register_all both no_entries)) 8888 "s" 0
    ≡ serve_until_end net (served_names no_entries (Quot.mk both_again)) 8888 "s" 0
serve_until_end-served_names_example =
    serve_until_end-served_names net no_entries (Quot.mk both_again) both 8888 "s" 0
      (Quot.sound (Perm.swap _ _ []))
