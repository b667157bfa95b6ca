-- ===== src/Http/Header.antt =====
-- http.Header: its methods canonicalize the name, and `index` is the bare map lookup.
pub mod Laws
use claviger.Prelude.{String, List, [], ◌∷◌, ◌++◌, ◌==◌, if◌then◌else◌}
use claviger.Text.{canonical}

abbrev pub Header : Type 0
Header = List (String × List String)

-- h[k]
unfoldable pub index : Header → String → List String
index [] k = []
index ((j, vs) ∷ h) k = if j == k then vs else index h k

-- h[k] = vs
unfoldable pub put : String → List String → Header → Header
put k vs [] = (k, vs) ∷ []
put k vs ((j, ws) ∷ h) = if j == k then (j, vs) ∷ h else (j, ws) ∷ put k vs h

-- delete(h, k)
unfoldable pub without : String → Header → Header
without k [] = []
without k ((j, ws) ∷ h) = let rest = without k h in if j == k then rest else (j, ws) ∷ rest

abbrev pub first : List String → String
first [] = ""
first (v ∷ vs) = v

-- h.Get(k)
unfoldable pub get : Header → String → String
unfolding canonical
get h k = first (index h (canonical k))

-- h.Set(k, v)
unfoldable pub set : String → String → Header → Header
unfolding canonical
set k v h = put (canonical k) (v ∷ []) h

-- h.Add(k, v)
unfoldable pub add : String → String → Header → Header
unfolding canonical
add k v h = put (canonical k) (index h (canonical k) ++ v ∷ []) h

-- h.Del(k)
unfoldable pub del : String → Header → Header
unfolding canonical
del k h = without (canonical k) h

-- for _, v := range vals { h.Add(k, v) }
unfoldable pub add_values : String → List String → Header → Header
unfolding add
add_values k [] h = h
add_values k (v ∷ vs) h = add_values k vs (add k v h)

-- for k, vals := range src { for _, v := range vals { h.Add(k, v) } }
unfoldable pub add_all : Header → Header → Header
unfolding add_values
add_all [] h = h
add_all ((k, vals) ∷ src) h = add_all src (add_values k vals h)
