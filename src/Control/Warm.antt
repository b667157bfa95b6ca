-- ===== src/Control/Warm.antt =====
-- What a client of internal/control gets from the daemon.
use Prim.Native.String.{◌++◌}
use claviger.Prelude.{ℕ, String, ◌≡◌, refl, false, List, [], ◌∷◌, ok, ◌==◌}
use claviger.Text.{trim_prefix}
use claviger.Http.{Cookie, Request}
use claviger.Session.{Session, apply}
use claviger.Effect.{Eff}
use claviger.Store.{Store, entry_of}
use claviger.Store
use claviger.Control.{
  Wire, ControlReply, copy_cookies, creds_of, creds_reply, creds_handler, session_of, read_creds,
  client_creds,
}

-- The session as it arrives: without its refresh token, and without its expiry.
abbrev pub warm : Session → Session
warm s = record s { refresh_token = ""; expires_at = 0 }

copy_cookies-id : (cs : List Cookie) → copy_cookies cs ≡ cs
unfolding copy_cookies
copy_cookies-id [] = refl
copy_cookies-id (c ∷ cs) = rw (copy_cookies-id cs) refl

session_of-creds_of : (s : Session) → session_of (creds_of s) ≡ warm s
unfolding session_of creds_of
session_of-creds_of s = rw (copy_cookies-id s.cookies, copy_cookies-id s.cookies) refl

module _ {W : Type 0} (wire : Wire) (clock : W → ℕ × W) where
  -- When the daemon's store gives a session, its client gets that session with the same effect on
  -- every request, provided that the record decodes to what was encoded and that the client's
  -- request reaches the handler under a path that ends in the identity.
  pub client_creds-apply :
      (ask : String → Eff (Store W × W) ControlReply) (id path : String) (st : Store W) (w : W)
      (sess : Session) (pair : Cookie → String) (req : Request)
      → (id == "") ≡ false
      → trim_prefix path "/creds/" ≡ id
      → ask ("/creds/" ++ wire.path_escape id) (st, w) ≡ (
        ok (creds_handler wire clock path st w).0,
        ((creds_handler wire clock path st w).1, (creds_handler wire clock path st w).2),
      )
      → wire.decode_creds (wire.encode_creds (creds_of sess)) ≡ ok (creds_of sess)
      → (Store.get clock id st w).0 ≡ ok sess
      → ((client_creds wire ask id (st, w)).0 ≡ ok (warm sess))
        × (apply pair (warm sess) req ≡ apply pair sess req)
  unfolding client_creds creds_handler creds_reply read_creds apply
  client_creds-apply ask id path st w sess pair req named route reached decoded found =
      (rw (reached, route, named, found, decoded, session_of-creds_of sess) refl, refl)
