-- ===== src/Http.antt =====
-- The messages of Go's net/http that the program reads and builds. A header maps canonical names
-- to lists of values; it is an association list, and a name may have at most one entry.
pub mod Header
use Prim.Native.String.{String}
use claviger.Prelude.{ℕ, List}
use Header

pub record Cookie : Type 0 where
  pub name : String
  pub value : String

-- http.Request, as it arrives at a handler and as it is sent. `target` is the URL it goes to.
pub record Request : Type 0 where
  pub method : String
  pub target : String
  pub header : Header.Header
  pub body : String

-- http.Response with its body read, and the cookies that it sets.
pub record Response : Type 0 where
  pub status : ℕ
  pub header : Header.Header
  pub cookies : List Cookie
  pub body : String
