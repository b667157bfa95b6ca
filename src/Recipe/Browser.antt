-- ===== src/Recipe/Browser.antt =====
-- internal/recipe/browser.go: a login through a real browser. The browser and its run context are
-- a parameter; the poll for the success URL runs on fuel.
pub mod Returns
mod Examples
use mathlib.Core.Option
use claviger.Prelude.{
  ℕ, ◌+◌, ◌*◌, ◌-◌, ◌/◌, ◌≤◌, suc, zero, String, ◌≡◌, Bool, true, not, ◌&&◌, List, [], ◌∷◌, Option,
  none, some, Error, no_session_material, external, bad_input, Result, ok, err, ◌==◌, if◌then◌else◌,
}
use claviger.Text.{contains}
use claviger.Http.{Cookie}
use claviger.Session.{Session}
use claviger.Effect.{Eff, and_then, ◌>>=◌, pure}
use claviger.Recipe.{LogoutSignature}
use claviger.Recipe.Expiry.{second}
use claviger.Recipe.Login.{keep_material}

-- Browser, without the HTTP client that its methods do not use.
pub record Browser : Type 0 where
  pub id : String
  pub login_url : String
  pub username_selector : String
  pub password_selector : String
  pub submit_selector : String
  pub success_url_contains : String
  pub success_selector : String
  pub headful : Bool
  pub insecure : Bool
  pub bearer_local_storage : String
  pub username : String
  pub password : String
  pub signature : LogoutSignature

-- What Establish starts the browser with.
pub record Launch : Type 0 where
  pub path : String
  pub headless : Bool
  pub ignore_certificate_errors : Bool
  pub timeout : ℕ

-- The actions of chromedp that only act.
pub data Action : Type 0 where
  navigate : String → Action
  wait_visible : String → Action
  send_keys : String → String → Action
  click : String → Action

-- 200 * time.Millisecond
abbrev pub tick : ℕ
tick = 200000000

-- What the recipe takes from the operating system and from chromedp, with what the loop relies on
-- of the run context: `left` is the time until its deadline.
pub record Chrome (W : Type 0) : Type 0 where
  -- os.Getenv of CLAVIGER_CHROME
  pub override : String
  -- os.Stat finds something that is no directory
  pub is_program : String → Bool
  -- exec.LookPath
  pub look_path : String → Option String
  -- the contexts of the allocator, the browser and the run, and their cancellation
  pub start : Launch → W → W
  pub close : W → W
  pub act : Action → Eff W (Unit {0})
  -- Evaluate of window.location.href
  pub location : Eff W String
  -- network.Enable and network.GetCookies
  pub cookies : Eff W (List Cookie)
  -- Evaluate of localStorage.getItem, null as `none`
  pub storage_item : String → Eff W (Option String)
  -- the select: the error of a context that is done, or `none` after the tick
  pub pause : W → Option Error × W
  pub left : W → ℕ
  pub left-start : (l : Launch) (w : W) → left (start l w) ≤ l.timeout
  pub left-act : (a : Action) (w : W) → left (act a w).1 ≤ left w
  pub left-location : (w : W) → left (location w).1 ≤ left w
  -- an action of a context whose deadline has passed fails
  pub location-late : (w : W) (href : String) → (location w).0 ≡ ok href → 1 ≤ left w
  pub left-pause : (w : W) → (pause w).0 ≡ none → left (pause w).1 ≤ left w - tick

abbrev install_locations : List String
install_locations =
    "/Applications/Google Chrome.app/Contents/MacOS/Google Chrome" ∷ "/usr/bin/google-chrome"
    ∷ "/usr/bin/chromium" ∷ "/usr/bin/chromium-browser" ∷ []

abbrev program_names : List String
program_names =
    "google-chrome" ∷ "google-chrome-stable" ∷ "chromium" ∷ "chromium-browser" ∷ "chrome" ∷ []

abbrev pub captured : Browser → List Cookie → String → Session
captured r cookies token = record {
  identity = r.id;
  cookies = cookies;
  bearer_token = token;
  refresh_token = "";
  csrf = "";
  headers = [];
  expires_at = 0;
}

module _ {W : Type 0} (chrome : Chrome W) where
  -- The loop over the names on the path.
  unfoldable pub first_on_path : List String → String
  first_on_path [] = ""
  first_on_path (name ∷ names) = elim (chrome.look_path name) [
    | none ↦ first_on_path names
    | some p ↦ p
  ]

  -- The loop over the install locations, and the search of the path after it.
  unfoldable pub first_installed : List String → String
  first_installed [] = first_on_path program_names
  first_installed (c ∷ cs) =
      let rest = first_installed cs in if chrome.is_program c then c else rest

  -- chromePath
  unfoldable pub chrome_path : String
  chrome_path =
      if not (chrome.override == "") then chrome.override else first_installed install_locations

  abbrev pub timeout_of : Browser → ℕ
  timeout_of r = if r.headful then 300 * second else 60 * second

  -- chromedp.Tasks: one after another, until one fails
  unfoldable pub act_all : List Action → Eff W (Unit {0})
  act_all [] = pure tt
  act_all (a ∷ todo) = do done ← chrome.act a; act_all todo

  -- The tasks up to the click.
  unfoldable pub fill_form : Browser → List Action
  fill_form r =
      navigate r.login_url
      ∷ wait_visible r.username_selector
      ∷ send_keys r.username_selector r.username
      ∷ send_keys r.password_selector r.password
      ∷ click r.submit_selector
      ∷ []

  abbrev after_pause :
      (W → Option (Result (Unit {0}) × W)) → Option Error × W → Option (Result (Unit {0}) × W)
  after_pause next (some x, w) = some (err x, w)
  after_pause next (none, w) = next w

  -- One round of the poll, with the rounds that follow it.
  unfoldable pub poll_round :
      String
      → (W → Option (Result (Unit {0}) × W))
      → Result String × W
      → Option (Result (Unit {0}) × W)
  poll_round fragment next (err x, w) = some (err x, w)
  poll_round fragment next (ok href, w) =
      if not (fragment == "") && contains href fragment
      then some (ok tt, w)
      else after_pause next (chrome.pause w)

  -- The loop of waitForSuccess; `none` is out of fuel.
  unfoldable pub poll : ℕ → String → W → Option (Result (Unit {0}) × W)
  poll zero fragment w = none
  poll (suc fuel) fragment w = poll_round fragment (poll fuel fragment) (chrome.location w)

  -- waitForSuccess
  unfoldable pub wait_for_success : ℕ → Browser → W → Option (Result (Unit {0}) × W)
  wait_for_success fuel r w =
      if not (r.success_selector == "")
      then some (chrome.act (wait_visible r.success_selector) w)
      else poll fuel r.success_url_contains w

  -- The stored token, asked for only with a key; null is no token.
  unfoldable pub stored_token : Browser → Eff W String
  stored_token r =
      if r.bearer_local_storage == ""
      then pure ""
      else (do item ← chrome.storage_item r.bearer_local_storage; pure (Option.get_or item ""))

  -- The tasks after the login, and the session of what they captured.
  unfoldable pub capture : Browser → Eff W Session
  capture r = do
    cookies ← chrome.cookies
    token ← stored_token r
    keep_material r.id (captured r cookies token)

  abbrev close_after : Result Session × W → Result Session × W
  close_after (out, w) = (out, chrome.close w)

  abbrev capture_after : Browser → Result (Unit {0}) × W → Result Session × W
  capture_after r (waited, w) = close_after (and_then waited (λ u. capture r) w)

  abbrev wait_after : ℕ → Browser → Result (Unit {0}) × W → Option (Result Session × W)
  wait_after fuel r (err x, w) = some (err x, chrome.close w)
  wait_after fuel r (ok u, w) = Option.map (capture_after r) (wait_for_success fuel r w)

  abbrev pub launch : Browser → Launch
  launch r = record {
    path = chrome_path;
    headless = not r.headful;
    ignore_certificate_errors = r.insecure;
    timeout = timeout_of r;
  }

  -- Browser.Establish, the poll on fuel
  unfoldable pub establish_within : ℕ → Browser → W → Option (Result Session × W)
  establish_within fuel r w =
      if chrome_path == ""
      then some (err (bad_input "chrome/chromium not found (set CLAVIGER_CHROME)"), w)
      else wait_after fuel r (act_all (fill_form r) (chrome.start (launch r) w))
