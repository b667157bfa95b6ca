-- ===== src/Daemon/Life/Examples.antt =====
-- Three events in the life of the daemon of Daemon/Sample.
use claviger.Prelude.{ℕ, ◌≡◌, [], ◌∷◌, some, err, bad_input}
use claviger.Prelude.Maps.{lookup}
use claviger.Text.{trim_prefix}
use claviger.Config.Sample.{lib}
use claviger.Config.Sample
use claviger.Gateway.State.{Live, Incoming}
use claviger.Gateway.Serve.{serve}
use claviger.Gateway.Own.{Acts, Rightful}
use claviger.Gateway.Alone.{Like}
use claviger.Daemon.Sample.{with_bob, with_bob-Like}
use claviger.Store
use claviger.Store.Entry.{Entry, Ref, new_entry}
use claviger.Recipe.Expiry.{expires_at}
use claviger.Control.{Wire, creds_handler}
use claviger.Daemon.Sample.{
  recipe, machine, parts, flags_with_token, prepared, gateway, request, is_prepared,
}
use claviger.Daemon.Life.{Reaches, requested, asked, ticked, here, and_then, ask_creds, sweep}
use claviger.Config.Unique.{IsUnique}
use claviger.Daemon.Life.Roster.{known, prepare-known}
use claviger.Daemon.Life.Isolation.{begin, Credible, prepare-Acts, prepare-Credible}

abbrev wire : Wire
wire = record {
  encode_creds = λ c. c.identity;
  decode_creds = λ body. err (bad_input body);
  path_escape = λ id. id;
  error_text = λ x. "error";
}

-- The client's request, with the token that the gateway wants.
abbrev with_token : Incoming
with_token = record request { header = ("X-Claviger-Token", "secret" ∷ []) ∷ [] }

abbrev first : Live ℕ
first = begin machine Sample.sources lib parts wire prepared 0

-- A request of alice, a tick of the refresh loop, and a look at her credentials.
abbrev later : Live ℕ
later =
    ask_creds gateway wire "/creds/alice"
      (sweep gateway wire 60 (serve gateway "alice" with_token first).1)

later-Reaches : Reaches gateway wire first later
later-Reaches =
    and_then (and_then (and_then here (requested "alice" with_token first)) (ticked 60 _))
      (asked "/creds/alice" _)

prepare-Acts_example :
    Acts
      (Rightful gateway "alice" with_token (lookup "alice" gateway.recipes))
      "alice"
      later
      (serve gateway "alice" with_token later).1
    × ((serve gateway "alice" with_token later).0
        ≡ (serve gateway "alice" with_token (with_bob later)).0)
    × Like "alice"
        (serve gateway "alice" with_token later).1
        (serve gateway "alice" with_token (with_bob later)).1
prepare-Acts_example =
    prepare-Acts machine Sample.sources lib parts wire flags_with_token prepared 0 later
      (with_bob later) "alice" with_token is_prepared later-Reaches (with_bob-Like later)

prepare-Credible_example :
    Credible wire
      (trim_prefix "/creds/alice" "/creds/")
      (creds_handler wire gateway.env.now "/creds/alice" later.store later.world).0
prepare-Credible_example =
    prepare-Credible machine Sample.sources lib parts wire flags_with_token prepared 0 later
      "/creds/alice" is_prepared later-Reaches

prepare-known_example : (known later ≡ gateway.recipes) × IsUnique gateway.recipes
prepare-known_example =
    prepare-known machine Sample.sources lib parts wire flags_with_token prepared 0 later
      is_prepared later-Reaches

-- Alice has logged in.
abbrev asked_once : Live ℕ
asked_once = ask_creds gateway wire "/creds/alice" first

abbrev alice_ref : Ref
alice_ref = record {
  addr = 0;
  obj = record {
    identity = "alice";
    cookies = record { name = "sid"; value = "1" } ∷ [];
    bearer_token = "";
    refresh_token = "";
    csrf = "";
    headers = [];
    expires_at = 60000000000;
  };
}

abbrev alice_entry : Entry ℕ
alice_entry = record (new_entry recipe) { session = some alice_ref; allocs = 1 }
