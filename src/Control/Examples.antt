-- ===== src/Control/Examples.antt =====
-- The control channel over a store of one identity.
use claviger.Prelude.{ℕ, ◌+◌, String, ◌≡◌, refl, [], ◌∷◌, none, some, ok}
use claviger.Text.{trim_prefix}
use claviger.Http.{Request}
use claviger.Session.{Session, apply, expired}
use claviger.Effect.{Eff}
use claviger.Recipe.{Recipe}
use claviger.Store.{Store, entry_of, put_entry, live, get_entry, health_of}
use claviger.Store
use claviger.Store.Entry.{Entry}
use claviger.Control.{Wire, ControlReply, creds_of, creds_handler, client_creds}
use claviger.Control.Warm.{warm, client_creds-apply}

abbrev alice : Session
alice = record {
  identity = "alice";
  cookies = record { name = "sid"; value = "1" } ∷ [];
  bearer_token = "t";
  refresh_token = "r";
  csrf = "c";
  headers = [];
  expires_at = 50;
}

abbrev login : Recipe ℕ
login = record {
  identity = "alice";
  establish = λ w. (ok alice, w);
  refresh = λ _ w. (ok alice, w);
  logout = record { status_codes = []; location_contains = ""; body_contains = "" };
}

abbrev entry : Entry ℕ
entry = record {
  recipe = login;
  session = some (record { addr = 0; obj = alice });
  stamps = [];
  last_auth = 0;
  last_err = none;
  allocs = 1;
}

abbrev store : Store ℕ
store = record { entries = ("alice", entry) ∷ []; max_burst = 10; window = 60 }

-- A codec for the one record that is sent.
abbrev wire : Wire
wire = record {
  encode_creds = λ cr. "record";
  decode_creds = λ body. ok (creds_of alice);
  path_escape = λ id. id;
  error_text = λ x. "error";
}

abbrev ticking : ℕ → ℕ × ℕ
ticking w = (w, w + 1)

abbrev ask : String → Eff (Store ℕ × ℕ) ControlReply
ask path (st, w) =
    let (reply, st', w') = creds_handler wire ticking path st w in (ok reply, (st', w'))

route : trim_prefix "/creds/alice" "/creds/" ≡ "alice"
unfolding trim_prefix
route = refl

found : (Store.get ticking "alice" store 7).0 ≡ ok alice
unfolding Store.get entry_of get_entry live expired
found = refl

abbrev request : Request
request = record { method = "GET"; target = "/"; header = []; body = "" }

client_creds-apply_example :
    ((client_creds wire ask "alice" (store, 7)).0 ≡ ok (warm alice))
    × (apply (λ c. c.name) (warm alice) request ≡ apply (λ c. c.name) alice request)
client_creds-apply_example =
    client_creds-apply wire ticking ask "alice" "/creds/alice" store 7 alice (λ c. c.name) request
      refl route refl refl found
