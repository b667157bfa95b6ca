-- ===== src/Recipe/Browser/Returns.antt =====
-- The browser login of internal/recipe/browser.go comes back, and what a login has brought.
use mathlib.Core.Option
use claviger.Prelude.{
  ℕ, ◌*◌, ◌-◌, ◌≤◌, suc, zero, String, ◌≡◌, refl, subst, Bool, true, false, not, ◌&&◌, Option, none,
  some, List, [], ◌∷◌, Error, Result, ok, err, ◌==◌, arith, Bool-cases, inl, inr, if◌then◌else◌,
}
use claviger.Text.{contains}
use claviger.Session.{Session}
use claviger.Effect.{Eff, and_then, ◌>>=◌}
use claviger.Recipe.{Recipe}
use claviger.Recipe.Expiry.{second}
use claviger.Recipe.Login.{is_bare, keep_material}
use claviger.Recipe.Browser.{
  Browser, Chrome, stored_token, captured, tick, after_pause, poll_round, poll, wait_for_success,
  fill_form, timeout_of, launch, chrome_path, act_all, establish_within, wait_after, capture,
  capture_after, Action,
}

abbrev pub Returned {ℓ} : {A : Type ℓ} → Option A → Type ℓ
Returned {A} o = (a : A) × (o ≡ some a)

module _ {W : Type 0} (chrome : Chrome W) where
  after_pause-Returned :
      (next : W → Option (Result (Unit {0}) × W)) (out : Option Error × W)
      → (out.0 ≡ none → Returned (next out.1))
      → Returned (after_pause chrome next out)
  after_pause-Returned next (none, w) k = k refl
  after_pause-Returned next (some x, w) k = (_, refl)

  poll_round-Returned :
      (fragment : String) (next : W → Option (Result (Unit {0}) × W)) (out : Result String × W)
      → ((href : String) (v : W)
          → out.0 ≡ ok href
          → chrome.left v ≤ chrome.left out.1 - tick
          → Returned (next v))
      → Returned (poll_round chrome fragment next out)
  unfolding poll_round
  poll_round-Returned fragment next (err x, w) k = (_, refl)
  poll_round-Returned fragment next (ok href, w) k =
      elim (Bool-cases (not (fragment == "") && contains href fragment)) [
        | inl seen ↦ rw (seen) ((ok tt, w), refl)
        | inr unseen ↦ rw (unseen) (
            after_pause-Returned next (chrome.pause w)
              (λ paused. k href (chrome.pause w).1 refl (chrome.left-pause w paused)))
      ]

  -- One round for each tick that is left, and one more.
  poll-Returned :
      (n : ℕ) (fragment : String) (w : W)
      → chrome.left w ≤ n * tick
      → Returned (poll chrome (suc n) fragment w)
  unfolding poll
  poll-Returned zero fragment w h =
      poll_round-Returned fragment (poll chrome zero fragment) (chrome.location w)
        (λ href v e late. ground (arith, chrome.location-late w href e))
  poll-Returned (suc n) fragment w h =
      poll_round-Returned fragment (poll chrome (suc n) fragment) (chrome.location w)
        (λ href v e late.
          poll-Returned n fragment v (omega (arith, h, late, chrome.left-location w)))

  -- The rounds that the timeout of a run has room for.
  abbrev pub rounds : Browser → ℕ
  rounds r = if r.headful then 1501 else 301

  poll_in_time :
      (headful : Bool) (fragment : String) (w : W)
      → chrome.left w ≤ (if headful then 300 * second else 60 * second)
      → Returned (poll chrome (if headful then 1501 else 301) fragment w)
  poll_in_time true fragment w h = poll-Returned 1500 fragment w (omega (arith, h))
  poll_in_time false fragment w h = poll-Returned 300 fragment w (omega (arith, h))

  -- Acting takes time and never gives any back.
  left-and_then :
      {A B : Type 0} (out : Result A) (k : A → Eff W B) (w : W)
      → ((a : A) (v : W) → chrome.left (k a v).1 ≤ chrome.left v)
      → chrome.left (and_then out k w).1 ≤ chrome.left w
  left-and_then (ok a) k w h = h a w
  left-and_then (err x) k w h = omega arith

  left-act_all :
      (todo : List Action) (w : W) → chrome.left (act_all chrome todo w).1 ≤ chrome.left w
  unfolding act_all
  left-act_all [] w = omega arith
  left-act_all (a ∷ todo) w = omega (
    arith,
    chrome.left-act a w,
    left-and_then (chrome.act a w).0 (λ done. act_all chrome todo) (chrome.act a w).1
        (λ done v. left-act_all todo v),
  )

  map-Returned {ℓ κ} :
      {A : Type ℓ} {B : Type κ} (f : A → B) (o : Option A) → Returned o → Returned (Option.map f o)
  map-Returned f o (a, e) = rw (e) (f a, refl)

  wait_for_success-Returned :
      (r : Browser) (w : W)
      → chrome.left w ≤ timeout_of chrome r
      → Returned (wait_for_success chrome (rounds r) r w)
  unfolding wait_for_success
  wait_for_success-Returned r w h = elim (Bool-cases (not (r.success_selector == ""))) [
    | inl given ↦ rw given (_, refl)
    | inr bare ↦ rw bare (poll_in_time r.headful r.success_url_contains w h)
  ]

  wait_after-Returned :
      (r : Browser) (out : Result (Unit {0}) × W)
      → chrome.left out.1 ≤ timeout_of chrome r
      → Returned (wait_after chrome (rounds r) r out)
  wait_after-Returned r (err x, w) h = (_, refl)
  wait_after-Returned r (ok u, w) h =
      map-Returned (capture_after chrome r) (wait_for_success chrome (rounds r) r w)
        (wait_for_success-Returned r w h)

  -- A browser login always comes back, under the laws of Chrome on the time that a run has left: a
  -- run that polls for its success URL makes no more rounds than its timeout has ticks, and one
  -- more, whatever the page shows.
  pub establish_within-Returned :
      (r : Browser) (w : W) → Returned (establish_within chrome (rounds r) r w)
  unfolding establish_within
  establish_within-Returned r w = elim (Bool-cases (chrome_path chrome == "")) [
    | inl missing ↦ rw (missing) (_, refl)
    | inr found ↦ rw (found) (
        wait_after-Returned r
          (act_all chrome (fill_form chrome r) (chrome.start (launch chrome r) w))
          (omega (
            arith,
            left-act_all (fill_form chrome r) (chrome.start (launch chrome r) w),
            chrome.left-start (launch chrome r) w,
          )))
  ]

  -- Browser as a Recipe: Refresh runs the whole login again.
  unfoldable pub browser_recipe : Browser → Recipe W
  browser_recipe r = record {
    identity = r.id;
    establish = λ w. (establish_within-Returned r w).0;
    refresh = λ _ w. (establish_within-Returned r w).0;
    logout = r.signature;
  }

  -- What a session that a login gives has to have.
  abbrev Brought : Browser → Result Session → Type 0
  Brought r (ok s) = (is_bare s ≡ false) × (s.identity ≡ r.id)
  Brought r (err x) = Unit

  abbrev Outcome : Browser → Option (Result Session × W) → Type 0
  Outcome r none = Unit
  Outcome r (some (out, w)) = Brought r out

  keep_material-Brought :
      (r : Browser) (s : Session) (w : W) → s.identity ≡ r.id → Brought r (keep_material r.id s w).0
  unfolding keep_material
  keep_material-Brought r s w own = elim (Bool-cases (is_bare s)) [
    | inl bare ↦ rw bare tt
    | inr full ↦ rw full (full, own)
  ]

  and_then-Brought :
      {A : Type 0} (r : Browser) (out : Result A) (k : A → Eff W Session) (w : W)
      → ((a : A) (v : W) → Brought r (k a v).0)
      → Brought r (and_then out k w).0
  and_then-Brought r (ok a) k w h = h a w
  and_then-Brought r (err x) k w h = tt

  capture-Brought : (r : Browser) (w : W) → Brought r (capture chrome r w).0
  unfolding capture
  capture-Brought r w =
      and_then-Brought r (chrome.cookies w).0
        (λ cookies.
          stored_token chrome r >>= λ token. keep_material r.id (captured r cookies token))
        (chrome.cookies w).1
        (λ cookies v.
          and_then-Brought r (stored_token chrome r v).0
            (λ token. keep_material r.id (captured r cookies token)) (stored_token chrome r v).1
            (λ token u. keep_material-Brought r (captured r cookies token) u refl))

  map-Outcome :
      (r : Browser) (o : Option (Result (Unit {0}) × W))
      → Outcome r (Option.map (capture_after chrome r) o)
  map-Outcome r none = tt
  map-Outcome r (some (ok u, w)) = capture-Brought r w
  map-Outcome r (some (err x, w)) = tt

  wait_after-Outcome :
      (r : Browser) (fuel : ℕ) (out : Result (Unit {0}) × W)
      → Outcome r (wait_after chrome fuel r out)
  wait_after-Outcome r fuel (ok u, w) = map-Outcome r (wait_for_success chrome fuel r w)
  wait_after-Outcome r fuel (err x, w) = tt

  establish_within-Outcome :
      (r : Browser) (fuel : ℕ) (w : W) → Outcome r (establish_within chrome fuel r w)
  unfolding establish_within
  establish_within-Outcome r fuel w = elim (Bool-cases (chrome_path chrome == "")) [
    | inl missing ↦ rw missing tt
    | inr found ↦ rw found (wait_after-Outcome r fuel _)
  ]

  -- A browser login that succeeds has a cookie or a bearer token, and bears the recipe's identity.
  pub establish_within-material :
      (fuel : ℕ) (r : Browser) (w v : W) (s : Session)
      → establish_within chrome fuel r w ≡ some (ok s, v)
      → (is_bare s ≡ false) × (s.identity ≡ r.id)
  establish_within-material fuel r w v s e = subst (Outcome r) e (establish_within-Outcome r fuel w)

  -- The recipe's login is the outcome of the run.
  pub establish-browser_recipe :
      (r : Browser) (w : W)
      → establish_within chrome (rounds r) r w ≡ some ((browser_recipe r).establish w)
  unfolding browser_recipe
  establish-browser_recipe r w = (establish_within-Returned r w).1
