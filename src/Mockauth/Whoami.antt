-- ===== src/Mockauth/Whoami.antt =====
-- A session of the server of testutil/mockauth, applied to a request by the program.
use Prim.Native.String.{◌++◌}
use claviger.Prelude.{
  ℕ, ◌+◌, suc, ◌≤◌, String, ◌≡◌, ◌≢◌, refl, ap, subst, false≢true, ◌∙◌, Bool, true, false, ◌&&◌, [],
  Option, none, some, ltb, arith, ◌==◌, eq_iff, eq_refl, if◌then◌else◌, Bool-cases, inl, inr,
}
use claviger.Prelude.Maps.{lookup-insert}
use claviger.Text.{has_prefix}
use claviger.Text.Prefix.{has_prefix-append, trim_prefix-append}
use claviger.Http.{Cookie, Request}
use claviger.Http.Header
use claviger.Session.{Session, apply}
use claviger.Session.Apply.{apply_values, canonical_authorization}
use claviger.Mockauth.{
  TokenInfo, answer, Server, Web, MockReply, unauthenticated, user_is, issue, valid, request_token,
  whoami_handler,
}

append_given : (x : String) → ("acc-" ++ x == "") ≡ false
unfolding has_prefix
append_given x = elim (Bool-cases ("acc-" ++ x == "")) [
  | inl blank ↦
      let same : ("acc-" ++ x) ≡ "" = ground (arith, eq_iff ("acc-" ++ x) "", blank) in
      absurd
        (false≢true (subst (λ t. has_prefix t "acc-" ≡ true) same (has_prefix-append "acc-" x)))
  | inr given ↦ given
]

authorization_not_cookie : ◌≢◌ {A = String} "Authorization" "Cookie"
authorization_not_cookie = ground (arith, eq_iff "Authorization" "Cookie")

module _ (web : Web) where
  -- A token is good until the lifetime after its issue has passed, for ever if there is none, and
  -- for the user that it was issued to.
  valid-issue :
      (user : String) (now later : ℕ) (s : Server)
      → 1 ≤ now
      → (valid web (issue web user now s).0.0 later (issue web user now s).1).0
        ≡ (if ltb 0 s.ttl && ltb (now + s.ttl) later then none else some user)
  unfolding valid issue
  valid-issue user now later s started =
      let info : TokenInfo = record {
        user = user;
        expires = if ltb 0 s.ttl then now + s.ttl else 0;
      } in
      let access = "acc-" ++ user ++ "-" ++ web.show (suc s.seq) in
      rw (lookup-insert access access info s.tokens, eq_refl access) (ground (arith, started))

  access_given : (user : String) (now : ℕ) (s : Server) → ((issue web user now s).0.0 == "") ≡ false
  unfolding issue
  access_given user now s = append_given (user ++ "-" ++ web.show (suc s.seq))

  -- The Authorization header of a request to which a session is applied.
  get-apply :
      (pair : Cookie → String) (sess : Session) (req : Request)
      → sess.headers ≡ []
      → (sess.bearer_token == "") ≡ false
      → Header.get (apply pair sess req).header "Authorization" ≡ "Bearer " ++ sess.bearer_token
  unfolding Header.get
  get-apply pair sess req bare given =
      rw
        (
          canonical_authorization,
          (apply_values pair sess req "Authorization" authorization_not_cookie).0,
          bare,
          given,
        )
        (ground arith)

  request_token-apply :
      (pair : Cookie → String) (sess : Session) (req : Request)
      → sess.headers ≡ []
      → (sess.bearer_token == "") ≡ false
      → request_token web (apply pair sess req) ≡ sess.bearer_token
  unfolding request_token
  request_token-apply pair sess req bare given =
      rw
        (
          get-apply pair sess req bare given,
          has_prefix-append "Bearer " sess.bearer_token,
          trim_prefix-append "Bearer " sess.bearer_token,
          given,
        )
        refl

  abbrev pub reply_of : Option String → MockReply
  reply_of none = unauthenticated
  reply_of (some user) = user_is user

  reply_of-if :
      (late : Bool) (user : String)
      → reply_of (if late then none else some user)
        ≡ (if late then unauthenticated else user_is user)
  reply_of-if true user = refl
  reply_of-if false user = refl

  answer-0 : (out : Option String × Server) → (answer web out).0 ≡ reply_of out.0
  answer-0 (none, s) = refl
  answer-0 (some user, s) = refl

  -- A session without headers of its own that bears a token issued at a time past the zero time,
  -- applied to any request, is answered as the user of the login until the lifetime of the token
  -- has passed, if it has one, and as nobody after that.
  pub whoami_handler-apply :
      (pair : Cookie → String) (sess : Session) (req : Request) (user : String) (now later : ℕ)
      (s : Server)
      → 1 ≤ now
      → sess.headers ≡ []
      → sess.bearer_token ≡ (issue web user now s).0.0
      → (whoami_handler web (apply pair sess req) later (issue web user now s).1).0
        ≡ (if ltb 0 s.ttl && ltb (now + s.ttl) later then unauthenticated else user_is user)
  unfolding whoami_handler
  whoami_handler-apply pair sess req user now later s started bare bears =
      answer-0 (valid web (request_token web (apply pair sess req)) later (issue web user now s).1)
      ∙ ap (λ tok. reply_of (valid web tok later (issue web user now s).1).0)
          (request_token-apply pair sess req bare
              (ap (λ t. t == "") bears ∙ access_given user now s)
            ∙ bears)
      ∙ ap reply_of (valid-issue user now later s started)
      ∙ reply_of-if (ltb 0 s.ttl && ltb (now + s.ttl) later) user
