-- ===== src/Daemon/Examples.antt =====
-- The daemon on the configuration of Config/Sample.
use claviger.Prelude.{ℕ, ◌+◌, String, ◌≡◌, ◌≢◌, ◌↔◌, Some, Option, [], ◌∷◌, some, ok, arith, eq_iff}
use claviger.Store.{Store}
use claviger.Store.Entry.{Entry, new_entry}
use claviger.Config.{IdentityConfig}
use claviger.Config.Sample.{lib, alice, sources}
use claviger.Gateway.State.{CsrfPolicy}
use claviger.Gateway.Serve.{http_error, serve}
use claviger.Http.Header
use claviger.Daemon.Flags.{plaintext, warn_if_plaintext_auth}
use claviger.Daemon.Flags.Plaintext.{Leaks, warn_if_plaintext_auth_iff}
use claviger.Daemon.Sample.{
  recipe, machine, flags_with_token, parts, gateway, prepared, request, start, is_prepared,
}
use claviger.Daemon.Run.Ready.{prepare-serve}

-- Every URL is a plaintext one.
abbrev all_http : String → Option (String × String)
all_http url = some ("http", "t")

warn_if_plaintext_auth_iff_example :
    Some (λ w. w ≡ plaintext "alice" "login") (warn_if_plaintext_auth all_http (alice ∷ []))
    ↔ Some (λ id. (id.name ≡ "alice") × Leaks all_http id "login") (alice ∷ [])
warn_if_plaintext_auth_iff_example =
    warn_if_plaintext_auth_iff all_http (alice ∷ []) "alice" "login"

abbrev guarded : IdentityConfig
guarded = record alice {
  csrf =
      some (record {
        fetch_url = "https://t/form";
        pattern = "(.*)";
        header = "X-Csrf";
        methods = [];
      });
}

abbrev policy : CsrfPolicy
policy = record {
  fetch_url = "https://t/form";
  header = "X-Csrf";
  methods = "POST" ∷ "PUT" ∷ "DELETE" ∷ "PATCH" ∷ [];
  find_submatch = λ body. [];
}

no_token : ◌≢◌ {A = String} "" "secret"
no_token = ground (arith, eq_iff "" "secret")

has_token : ◌≢◌ {A = String} "secret" ""
has_token = ground (arith, eq_iff "secret" "")

random_given : (t : String) → machine.random_hex ≡ ok t → t ≢ ""
random_given t e blank = ground (arith, eq_iff "00" "", e, blank)

prepare-serve_example :
    (message : String) × (serve gateway "alice" request start ≡ (http_error 403 message, start))
unfolding Header.get Header.index
prepare-serve_example =
    prepare-serve machine sources lib parts flags_with_token prepared "alice" request start
      is_prepared has_token random_given no_token

abbrev ticking : ℕ → ℕ × ℕ
ticking w = (w, w + 1)

-- The session of alice has no known expiry.
abbrev held : Entry ℕ
held = record (new_entry recipe) {
  session = some (record {
    addr = 0;
    obj = record {
      identity = "alice";
      cookies = [];
      bearer_token = "t";
      refresh_token = "";
      csrf = "";
      headers = [];
      expires_at = 0;
    };
  });
}

abbrev held_store : Store ℕ
held_store = record { entries = ("alice", held) ∷ []; max_burst = 10; window = 60 }
