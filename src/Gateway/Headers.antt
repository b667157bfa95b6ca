-- ===== src/Gateway/Headers.antt =====
-- hopByHop and copyHeader of internal/gateway/gateway.go. A set of names is its test.
pub mod Laws
use claviger.Prelude.{String, Bool, false, not, ◌&&◌, ◌||◌, List, [], ◌∷◌, any, ◌==◌, if◌then◌else◌}
use claviger.Text.{canonical, split_on, trim_space}
use claviger.Http.Header

-- alwaysHopByHop
abbrev pub always_hop_by_hop : List String
always_hop_by_hop =
    "Connection" ∷ "Keep-Alive" ∷ "Transfer-Encoding" ∷ "Te" ∷ "Trailer" ∷ "Upgrade"
    ∷ "Proxy-Connection" ∷ "Proxy-Authenticate" ∷ "Proxy-Authorization" ∷ []

-- A name that the tokens of a Connection header list.
unfoldable pub listed : List String → String → Bool
unfolding trim_space canonical
listed [] k = false
listed (tok ∷ toks) k =
    (not (trim_space tok == "") && (canonical (trim_space tok) == k)) || listed toks k

-- hopByHop: whether the name is to be dropped for a message with this Connection header
unfoldable pub hop_by_hop : String → String → Bool
unfolding listed split_on
hop_by_hop connection k = any (λ n. n == k) always_hop_by_hop || listed (split_on b',' connection) k

-- The loop of copyHeader.
unfoldable pub copy_kept : (String → Bool) → Header.Header → Header.Header → Header.Header
unfolding Header.add_values canonical
copy_kept drop [] dst = dst
copy_kept drop ((k, vals) ∷ src) dst =
    copy_kept drop src (if drop (canonical k) then dst else Header.add_values k vals dst)

-- copyHeader
unfoldable pub copy_header : Header.Header → Header.Header → Header.Header
unfolding copy_kept hop_by_hop Header.get
copy_header dst src = copy_kept (hop_by_hop (Header.get src "Connection")) src dst
