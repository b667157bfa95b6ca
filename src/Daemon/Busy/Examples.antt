-- ===== src/Daemon/Busy/Examples.antt =====
-- Two requests of alice at once, to the daemon of Daemon/Sample.
use claviger.Prelude.{ℕ, Result, ◌≡◌, [], ◌∷◌, err, bad_input}
use claviger.Prelude.Maps.{lookup}
use claviger.Effect.Task.{after}
use claviger.Config.Sample.{lib}
use claviger.Config.Sample
use claviger.Gateway.State.{Live, Incoming, check_request}
use claviger.Gateway.Host.{is_loopback_host}
use claviger.Http.Header
use claviger.Text.{canonical}
use claviger.Gateway.Forward.{outbound_url}
use claviger.Gateway.Serve.{refusal, policy_for}
use claviger.Gateway.Own.{Acts, Rightful}
use claviger.Gateway.Alone.{Like}
use claviger.Daemon.Sample.{with_bob, with_bob-Like}
use claviger.Gateway.Tasks.{serve_task, admitted_task, pair_task, forward_task}
use claviger.Control.{Wire}
use claviger.Daemon.Sample.{
  machine, parts, flags_with_token, prepared, gateway, request, is_prepared,
}
use claviger.Daemon.Busy.{Busy, Runs, new_job, arrives, ticks, at_start, on}
use claviger.Daemon.Busy.Apart.{idle, prepare-interleaved}
use claviger.Daemon.Life.{sweep}

abbrev wire : Wire
wire = record {
  encode_creds = λ c. c.identity;
  decode_creds = λ body. err (bad_input body);
  path_escape = λ id. id;
  error_text = λ x. "error";
}

abbrev with_token : Incoming
with_token = record request { header = ("X-Claviger-Token", "secret" ∷ []) ∷ [] }

abbrev nothing_yet : Busy ℕ
nothing_yet = idle machine Sample.sources lib parts wire prepared 0

-- Both requests have come in, and the refresh loop has ticked.
abbrev two_jobs : Busy ℕ
two_jobs = record {
  shared = sweep gateway wire 60 nothing_yet.shared;
  jobs = new_job gateway wire "alice" with_token ∷ new_job gateway wire "alice" with_token ∷ [];
}

two_jobs-Runs : Runs gateway wire nothing_yet two_jobs
two_jobs-Runs =
    on (on (on at_start (arrives "alice" with_token nothing_yet)) (arrives "alice" with_token _))
      (ticks 60 _)

abbrev first_action : Live ℕ → Result (Unit {0}) × Live ℕ
first_action = check_request gateway "GET" (outbound_url gateway with_token)

prepare-interleaved_example :
    Acts
      (Rightful gateway "alice" with_token (lookup "alice" gateway.recipes))
      "alice"
      two_jobs.shared
      (first_action two_jobs.shared).1
    × ((first_action two_jobs.shared).0 ≡ (first_action (with_bob two_jobs.shared)).0)
    × Like "alice" (first_action two_jobs.shared).1 (first_action (with_bob two_jobs.shared)).1
unfolding serve_task refusal admitted_task pair_task forward_task after lookup is_loopback_host
    Header.get Header.index canonical outbound_url policy_for
prepare-interleaved_example =
    prepare-interleaved machine Sample.sources lib parts wire flags_with_token prepared 0
      two_jobs.shared (with_bob two_jobs.shared) (new_job gateway wire "alice" with_token ∷ []) []
      "alice" with_token first_action _ is_prepared two_jobs-Runs (with_bob-Like two_jobs.shared)
