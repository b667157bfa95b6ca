-- ===== src/Recipe/Browser/Examples.antt =====
-- A browser whose page shows the success URL at once. The world is the time that the run has left.
use claviger.Prelude.{
  ℕ, zero, suc, ◌-◌, ◌≤◌, ◌≡◌, String, false, [], ◌∷◌, none, Result, ok, err, external, arith,
}
use claviger.Session.{Session}
use claviger.Recipe.Browser.{Browser, Chrome, tick, establish_within, captured}
use claviger.Recipe.Browser.Returns.{Returned, establish_within-Returned}

abbrev shown : ℕ → Result String
shown zero = err (external "deadline exceeded")
shown (suc n) = ok "https://t/home"

shown_late : (w : ℕ) (href : String) → shown w ≡ ok href → 1 ≤ w
shown_late zero href e = cc
shown_late (suc n) href e = omega arith

abbrev chrome : Chrome ℕ
chrome = record {
  override = "/usr/bin/chromium";
  is_program = λ path. false;
  look_path = λ name. none;
  start = λ l w. l.timeout;
  close = λ w. w;
  act = λ a w. (ok tt, w);
  location = λ w. (shown w, w);
  cookies = λ w. (ok (record { name = "sid"; value = "1" } ∷ []), w);
  storage_item = λ key w. (ok none, w);
  pause = λ w. (none, w - tick);
  left = λ w. w;
  left-start = λ l w. omega arith;
  left-act = λ a w. omega arith;
  left-location = λ w. omega arith;
  location-late = shown_late;
  left-pause = λ w e. omega arith;
}

abbrev alice : Browser
alice = record {
  id = "alice";
  login_url = "https://t/login";
  username_selector = "#u";
  password_selector = "#p";
  submit_selector = "#go";
  success_url_contains = "/home";
  success_selector = "";
  headful = false;
  insecure = false;
  bearer_local_storage = "";
  username = "alice";
  password = "pw";
  signature = record { status_codes = []; location_contains = ""; body_contains = "" };
}

abbrev session : Session
session = captured alice (record { name = "sid"; value = "1" } ∷ []) ""

establish_within-Returned_example : Returned (establish_within chrome 301 alice 0)
establish_within-Returned_example = establish_within-Returned chrome alice 0
