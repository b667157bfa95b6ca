-- ===== src/Recipe/Flow/Examples.antt =====
-- A login of two steps: a page that gives a token in a header, and a form that sends it back.
use claviger.Prelude.{ℕ, ◌+◌, String, ◌≡◌, refl, [], ◌∷◌, List, none, ok}
use claviger.Prelude.Maps.{insert}
use claviger.Text.{canonical, replace_all}
use claviger.Http.{Response}
use claviger.Http.Header
use claviger.Session.{Session}
use claviger.Effect.{Env}
use claviger.Prelude.Int.{pos}
use claviger.Recipe.Flow.{
  ExtractRule, FlowStep, Readers, no_fields, apply_extract, extract_all, subst_vars,
}
use claviger.Recipe.Flow.Establish.{
  Jars, MultiStep, step_request, send_step, run_step, run_steps, capture_session, flow_establish,
}

abbrev page : Response
page = record { status = 200; header = ("X-T", "k" ∷ []) ∷ []; cookies = []; body = "" }

-- The world counts the requests, and the jar is the list of the bodies that were sent.
abbrev env : Env ℕ
env = record {
  now = λ w. (w, w);
  default_client = λ req w. (ok page, w + 1);
  request_error = λ m u. none;
  encode_form = λ form. "form";
  cookie_pair = λ c. c.name;
  decode_token =
      λ body. (record { access_token = ""; refresh_token = ""; expires_in = pos 0 }, none);
}

abbrev jars : Jars ℕ (List String)
jars = record {
  new_jar = ok [];
  send_with = λ req s. (ok page, (req.body ∷ s.0, s.1 + 1));
  cookies_for = λ jar url. ok (record { name = "sid"; value = url } ∷ []);
}

abbrev read : Readers
read = record { find_submatch = λ p b. ok none; decode_object = λ b. ok no_fields }

abbrev rule : ExtractRule
rule = record { name = "t"; source = "header"; pattern = "x-t" }

abbrev first_step : FlowStep
first_step = record { method = ""; url = "/login"; form = []; body = ""; extract = rule ∷ [] }

abbrev second_step : FlowStep
second_step = record { method = "POST"; url = "/login"; form = []; body = "t={{t}}"; extract = [] }

abbrev recipe : MultiStep
recipe = record {
  id = "alice";
  password = "pw";
  steps = first_step ∷ second_step ∷ [];
  capture = record { csrf = "{{t}}"; bearer = none };
  signature = record { status_codes = []; location_contains = ""; body_contains = "" };
}

abbrev logged_in : Session
logged_in = record {
  identity = "alice";
  cookies = record { name = "sid"; value = "/login" } ∷ [];
  bearer_token = "";
  refresh_token = "";
  csrf = "k";
  headers = [];
  expires_at = 0;
}

flow_run : (flow_establish env read jars recipe 0).0 ≡ ok logged_in
unfolding flow_establish run_step run_steps send_step step_request subst_vars replace_all
    extract_all apply_extract Header.get canonical insert capture_session Header.index
flow_run = refl
