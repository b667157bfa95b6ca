-- ===== src/Gateway/Retry.antt =====
-- internal/gateway/retry.go
use claviger.Prelude.{String, Bool, List, [], ◌∷◌, any, ◌==◌}
use claviger.Text.{to_upper}

-- idempotentMethods
abbrev pub idempotent_methods : List String
idempotent_methods = "GET" ∷ "HEAD" ∷ "PUT" ∷ "DELETE" ∷ "OPTIONS" ∷ "TRACE" ∷ []

-- IsIdempotent
unfoldable pub is_idempotent : String → Bool
unfolding to_upper
is_idempotent method = any (λ m. m == to_upper method) idempotent_methods
