-- ===== src/Corpus.antt =====
-- internal/corpus: the requests that a batch replay sends, from a requests file, a HAR export or an
-- OpenAPI document.
pub mod Requests
pub mod Har
pub mod Openapi
pub mod Load
mod Examples
use claviger.Prelude.{String}
use claviger.Http.Header

-- corpus.Request
pub record CorpusRequest : Type 0 where
  pub method : String
  pub path : String
  pub header : Header.Header
  pub body : String
