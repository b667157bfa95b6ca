-- ===== src/Effect.antt =====
-- Code that acts on a state and may fail. What it did before an error stays done, so the state
-- comes back beside the error too. Also here: what the program takes from outside itself.
pub mod Task
use claviger.Prelude.{ℕ, String, List, Option, none, some, Error, Result, ok, err}
use claviger.Prelude.Int.{ℤ}
use claviger.Http.{Cookie, Request, Response}

abbrev pub Eff {ℓ κ} : Type ℓ → Type κ → Type (ℓ ⊔ κ)
Eff S A = S → Result A × S

abbrev pub and_then {ℓ κ μ} :
    {S : Type ℓ} {A : Type κ} {B : Type μ} → Result A → (A → Eff S B) → S → Result B × S
and_then (ok a) f s = f a s
and_then (err e) f s = (err e, s)

infixl 5 ◌>>=◌
abbrev pub ◌>>=◌ {ℓ κ μ} :
    {S : Type ℓ} {A : Type κ} {B : Type μ} → Eff S A → (A → Eff S B) → Eff S B
◌>>=◌ m f s = let (r, s') = m s in and_then r f s'

abbrev pub pure {ℓ κ} : {S : Type ℓ} {A : Type κ} → A → Eff S A
pure a s = (ok a, s)

abbrev pub raise {ℓ κ} : {S : Type ℓ} {A : Type κ} → Error → Eff S A
raise e s = (err e, s)

-- The token response of a login endpoint.
pub record Payload : Type 0 where
  pub access_token : String
  pub refresh_token : String
  pub expires_in : ℤ

-- http.Client: what a request does to the world, and the response with its body read.
abbrev pub Client : Type 0 → Type 0
Client W = Request → Eff W Response

-- What the program takes from the Go library and the operating system. `W` is the world: the
-- servers, the network and the clock.
pub record Env (W : Type 0) : Type 0 where
  -- time.Now
  pub now : W → ℕ × W
  -- http.DefaultClient
  pub default_client : Client W
  -- the error of http.NewRequest for a method and a URL
  pub request_error : String → String → Option Error
  -- url.Values.Encode of a form
  pub encode_form : List (String × String) → String
  -- a cookie as AddCookie writes it
  pub cookie_pair : Cookie → String
  -- json.Decode of a token response: the fields that it filled, and its error
  pub decode_token : String → Payload × Option Error

-- http.NewRequest followed by Client.Do
unfoldable pub exchange : {W : Type 0} → Env W → Client W → Request → Eff W Response
exchange env client req w = elim (env.request_error req.method req.target) [
  | none ↦ client req w
  | some e ↦ (err e, w)
]
