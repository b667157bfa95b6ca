-- ===== src/Recipe/Flow/Establish/Material.antt =====
-- What a multi-step login of internal/recipe/multistep.go returns.
use claviger.Prelude.{String, ◌≡◌, false, List, [], ◌∷◌, Result, ok, err, arith}
use claviger.Session.{Session}
use claviger.Effect.{Env}
use claviger.Recipe.Login.{is_bare}
use claviger.Recipe.Flow.{FlowStep, Readers}
use claviger.Recipe.Flow.Establish.{
  Jars, MultiStep, Last, capture_session, flow_establish, finish_flow, with_jar, establish_steps,
}

module _ {W J : Type 0} (env : Env W) (read : Readers) (jars : Jars W J) where
  capture_session-material :
      (r : MultiStep) (jar : J) (vars : List (String × String)) (last : Last) (s : Session)
      → capture_session env read jars r jar (vars, last) ≡ ok s
      → (is_bare s ≡ false) × (s.identity ≡ r.id)
  unfolding capture_session
  capture_session-material r jar vars last s h = ground arith

  abbrev Material : MultiStep → Session → Type 0
  Material r s = (is_bare s ≡ false) × (s.identity ≡ r.id)

  finish_flow-Material :
      (r : MultiStep) (out : Result (List (String × String) × Last) × (J × W)) (s : Session)
      → (finish_flow env read jars r out).0 ≡ ok s
      → Material r s
  finish_flow-Material r (err x, (jar, w)) s h = cc
  finish_flow-Material r (ok (vars, last), (jar, w)) s h =
      capture_session-material r jar vars last s h

  with_jar-Material :
      (r : MultiStep) (step : FlowStep) (steps : List FlowStep) (jar : Result J) (w : W)
      (s : Session)
      → (with_jar env read jars r step steps jar w).0 ≡ ok s
      → Material r s
  with_jar-Material r step steps (err x) w s h = cc
  with_jar-Material r step steps (ok jar) w s h = finish_flow-Material r _ s h

  establish_steps-Material :
      (r : MultiStep) (steps : List FlowStep) (w : W) (s : Session)
      → (establish_steps env read jars r steps w).0 ≡ ok s
      → Material r s
  establish_steps-Material r [] w s h = cc
  establish_steps-Material r (step ∷ steps) w s h =
      with_jar-Material r step steps jars.new_jar w s h

  -- A session that a multi-step login yields has a cookie or a token, and is the identity's own.
  pub flow_establish-material :
      (r : MultiStep) (w : W) (s : Session)
      → (flow_establish env read jars r w).0 ≡ ok s
      → (is_bare s ≡ false) × (s.identity ≡ r.id)
  unfolding flow_establish
  flow_establish-material r w s h = establish_steps-Material r r.steps w s h
