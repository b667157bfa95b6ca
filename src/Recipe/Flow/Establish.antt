-- ===== src/Recipe/Flow/Establish.antt =====
-- MultiStep.Establish of internal/recipe/multistep.go.
pub mod Material
use claviger.Prelude.{
  ℕ, suc, String, List, [], ◌∷◌, Option, none, some, Error, Result, ok, err, at_step, bad_status,
  bad_config, bad_input, no_session_material, leb, ◌==◌, if◌then◌else◌,
}
use claviger.Prelude
use claviger.Http.{Cookie, Request, Response}
use claviger.Http.Header
use claviger.Session.{Session}
use claviger.Effect.{Eff, ◌>>=◌, Env}
use claviger.Recipe.{LogoutSignature, Recipe}
use claviger.Recipe.Login.{is_bare}
use claviger.Recipe.Flow.{
  FlowStep, CaptureSpec, ExtractRule, Readers, subst_vars, apply_extract, extract_all,
}

-- What Establish takes from net/http: a fresh cookie jar, a client with the recipe's transport and
-- the jar, and the cookies that the jar has for a URL, if that parses.
pub record Jars (W J : Type 0) : Type 0 where
  pub new_jar : Result J
  pub send_with : Request → Eff (J × W) Response
  pub cookies_for : J → String → Result (List Cookie)

pub record MultiStep : Type 0 where
  pub id : String
  pub password : String
  pub steps : List FlowStep
  pub capture : CaptureSpec
  pub signature : LogoutSignature

-- The response and the URL of the last step.
pub record Last : Type 0 where
  pub response : Response
  pub url : String

abbrev pub or_get : String → String
or_get method = if method == "" then "GET" else method

unfoldable pub fill_form : List (String × String) → List (String × String) → List (String × String)
fill_form vars [] = []
fill_form vars ((k, v) ∷ form) = (k, subst_vars vars v) ∷ fill_form vars form

module _ {W J : Type 0} (env : Env W) (read : Readers) (jars : Jars W J) where
  abbrev pub step_header : List (String × String) → Header.Header
  step_header [] = []
  step_header (f ∷ form) = ("Content-Type", "application/x-www-form-urlencoded" ∷ []) ∷ []

  abbrev pub step_body : List (String × String) → FlowStep → String
  step_body vars step = elim step.form [
    | [] ↦ if step.body == "" then "" else subst_vars vars step.body
    | f ∷ form ↦ env.encode_form (fill_form vars (f ∷ form))
  ]

  unfoldable pub step_request : List (String × String) → FlowStep → Request
  step_request vars step = record {
    method = or_get step.method;
    target = subst_vars vars step.url;
    header = step_header step.form;
    body = step_body vars step;
  }

  -- NewRequest and Do; an error names the step.
  unfoldable pub send_step : ℕ → Request → Eff (J × W) Response
  send_step i req s = elim (env.request_error req.method req.target) [
    | some x ↦ (err (at_step i x), s)
    | none ↦
        let (r, s') = jars.send_with req s in
        (elim r [ ok resp ↦ ok resp | err x ↦ err (at_step i x) ], s')
  ]

  -- The status check and the extraction rules of a step.
  abbrev pub step_vars :
      ℕ → String → FlowStep → List (String × String) → Response → Result (List (String × String))
  step_vars i id step vars resp =
      if leb 400 resp.status
      then err (at_step i (bad_status id resp.status))
      else extract_all read i step.extract resp vars

  abbrev pub with_last :
      Response → String → Result (List (String × String)) → Result (List (String × String) × Last)
  with_last resp url (err x) = err x
  with_last resp url (ok vars) = ok (vars, record { response = resp; url = url })

  -- One round of the loop over the steps.
  unfoldable pub run_step :
      ℕ → String → FlowStep → List (String × String) → Eff (J × W) (List (String × String) × Last)
  run_step i id step vars = do
    let req = step_request vars step
    resp ← send_step i req
    λ s. (with_last resp req.target (step_vars i id step vars resp), s)

  -- The rest of the steps, from number i on.
  unfoldable pub run_steps :
      ℕ
      → String
      → List FlowStep
      → List (String × String) × Last
      → Eff (J × W) (List (String × String) × Last)
  run_steps i id [] so_far s = (ok so_far, s)
  run_steps i id (step ∷ steps) so_far s =
      (run_step i id step so_far.0 >>= λ next. run_steps (suc i) id steps next) s

  abbrev bearer_of : Option ExtractRule → Response → Result String
  bearer_of none resp = ok ""
  bearer_of (some rule) resp = apply_extract read rule resp

  -- The session of a flow that has run through.
  unfoldable pub capture_session : MultiStep → J → List (String × String) × Last → Result Session
  capture_session r jar (vars, last) = Prelude.◌>>=◌ (jars.cookies_for jar last.url) (λ cookies.
      Prelude.◌>>=◌ (bearer_of r.capture.bearer last.response) (λ token.
        let sess : Session = record {
          identity = r.id;
          cookies = cookies;
          bearer_token = token;
          refresh_token = "";
          csrf = if r.capture.csrf == "" then "" else subst_vars vars r.capture.csrf;
          headers = [];
          expires_at = 0;
        } in
        if is_bare sess then err (no_session_material r.id) else ok sess))

  abbrev finish_flow :
      MultiStep → Result (List (String × String) × Last) × (J × W) → Result Session × W
  finish_flow r (err x, s) = (err x, s.1)
  finish_flow r (ok so_far, s) = (capture_session r s.0 so_far, s.1)

  abbrev with_jar : MultiStep → FlowStep → List FlowStep → Result J → Eff W Session
  with_jar r step steps (err x) w = (err x, w)
  with_jar r step steps (ok jar) w = finish_flow r (
      (run_step 1 r.id step (("password", r.password) ∷ []) >>= λ next. run_steps 2 r.id steps next)
        (jar, w))

  abbrev establish_steps : MultiStep → List FlowStep → Eff W Session
  establish_steps r [] w = (err (bad_config r.id "no steps configured"), w)
  establish_steps r (step ∷ steps) w = with_jar r step steps jars.new_jar w

  -- MultiStep.Establish
  unfoldable pub flow_establish : MultiStep → Eff W Session
  flow_establish r w = establish_steps r r.steps w

  -- MultiStep as a Recipe: Refresh runs Establish again.
  unfoldable pub flow_recipe : MultiStep → Recipe W
  flow_recipe r = record {
    identity = r.id;
    establish = flow_establish r;
    refresh = λ _. flow_establish r;
    logout = r.signature;
  }
