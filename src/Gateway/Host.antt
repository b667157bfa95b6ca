-- ===== src/Gateway/Host.antt =====
-- isLoopbackHost of internal/gateway/gateway.go.
use claviger.Prelude.{
  String, Bool, false, ◌||◌, Option, none, some, ◌==◌, if◌then◌else◌, List, [], ◌∷◌, any,
}
use claviger.Text.{to_lower, trim_suffix, trim_of}

-- What the gateway uses of net and net/url.
pub record NetLib : Type 0 where
  -- the host of net.SplitHostPort, if that succeeds
  pub split_host_port : String → Option String
  -- net.ParseIP succeeds, and the address IsLoopback
  pub is_loopback_ip : String → Bool
  -- the Host of url.Parse, if that succeeds
  pub url_host : String → Option String

abbrev or_whole : Option String → String → String
or_whole none host = host
or_whole (some h) host = h

-- Lower case, less one trailing dot.
unfoldable pub normalize_host : NetLib → String → String
unfolding to_lower trim_suffix
normalize_host lib host = trim_suffix (to_lower (or_whole (lib.split_host_port host) host)) "."

abbrev pub loopback_names : List String
loopback_names = "127.0.0.1" ∷ "localhost" ∷ "::1" ∷ []

-- isLoopbackHost
unfoldable pub is_loopback_host : NetLib → String → Bool
unfolding normalize_host trim_of
is_loopback_host lib host =
    if host == ""
    then false
    else (let h = normalize_host lib host in
        any (λ n. h == n) loopback_names || lib.is_loopback_ip (trim_of h "[]"))
