-- ===== src/Recipe.antt =====
-- internal/recipe/recipe.go and signature.go: the interface of a login recipe, the logout
-- signature, and the conversion of a token's lifetime.
pub mod Expiry
pub mod Login
pub mod Form
pub mod Oauth
pub mod Material
pub mod Flow
pub mod Browser
pub mod Honest
mod Examples
use claviger.Prelude.{ℕ, String, Bool, not, ◌&&◌, ◌||◌, Option, List, Result, eqb, any, ◌==◌}
use claviger.Text.{contains}
use claviger.Http.{Response}
use claviger.Http.Header
use claviger.Session.{Session}

pub record LogoutSignature : Type 0 where
  pub status_codes : List ℕ
  pub location_contains : String
  pub body_contains : String

-- LogoutSignature.Matches
unfoldable pub matches : LogoutSignature → Response → Bool
unfolding Header.get contains
matches sig resp =
    any (λ code. eqb resp.status code) sig.status_codes
    || (not (sig.location_contains == "")
        && contains (Header.get resp.header "Location") sig.location_contains)
    || (not (sig.body_contains == "") && contains resp.body sig.body_contains)

-- Recipe: `W` is all that the program does not hold itself, the servers and the clock among it.
pub record Recipe (W : Type 0) : Type 0 where
  pub identity : String
  pub establish : W → Result Session × W
  pub refresh : Option Session → W → Result Session × W
  pub logout : LogoutSignature
