-- ===== src/Http/Header/Laws.antt =====
-- What each header operation does to the values under every name.
use mathlib.Core.List.{append-nil, append_assoc}
use claviger.Prelude.{
  String, ◌≡◌, refl, ap, sym, List, [], ◌∷◌, ◌++◌, ◌==◌, eq_iff, arith, if◌then◌else◌,
}
use claviger.Text.{canonical}
use claviger.Http.Header.{
  Header, index, put, without, first, get, set, add, del, add_values, add_all,
}

pub index-put :
    (k j : String) (vs : List String) (h : Header)
    → index (put k vs h) j ≡ (if k == j then vs else index h j)
unfolding index put
index-put k j vs [] = refl
index-put k j vs ((i, ws) ∷ h) =
    ground (arith, eq_iff k j, eq_iff i k, eq_iff i j, index-put k j vs h)

pub index-without :
    (k j : String) (h : Header) → index (without k h) j ≡ (if k == j then [] else index h j)
unfolding index without
index-without k j [] = ground arith
index-without k j ((i, ws) ∷ h) =
    ground (arith, eq_iff k j, eq_iff i k, eq_iff i j, index-without k j h)

pub index-set :
    (k v j : String) (h : Header)
    → index (set k v h) j ≡ (if canonical k == j then v ∷ [] else index h j)
unfolding set
index-set k v j h = index-put (canonical k) j (v ∷ []) h

pub index-del :
    (k j : String) (h : Header) → index (del k h) j ≡ (if canonical k == j then [] else index h j)
unfolding del
index-del k j h = index-without (canonical k) j h

pub index-add :
    (k v j : String) (h : Header)
    → index (add k v h) j ≡ (if canonical k == j then index h j ++ v ∷ [] else index h j)
unfolding add
index-add k v j h =
    ground
      (arith, index-put (canonical k) j (index h (canonical k) ++ v ∷ []) h, eq_iff (canonical k) j)

pub index-add_values :
    (k j : String) (vs : List String) (h : Header)
    → index (add_values k vs h) j ≡ (if canonical k == j then index h j ++ vs else index h j)
unfolding add_values
index-add_values k j [] h = ground (arith, append-nil (index h j))
index-add_values k j (v ∷ vs) h = ground (
  arith,
  index-add_values k j vs (add k v h),
  index-add k v j h,
  append_assoc (index h j) (v ∷ []) vs,
)

-- All values that a header, read as a list of entries, has for names that canonicalize to `j`.
abbrev pub gathered : Header → String → List String
gathered [] j = []
gathered ((k, vals) ∷ src) j = (if canonical k == j then vals else []) ++ gathered src j

pub index-add_all :
    (src h : Header) (j : String) → index (add_all src h) j ≡ index h j ++ gathered src j
unfolding add_all
index-add_all [] h j = sym (append-nil (index h j))
index-add_all ((k, vals) ∷ src) h j = ground (
  arith,
  index-add_all src (add_values k vals h) j,
  index-add_values k j vals h,
  append_assoc (index h j) vals (gathered src j),
)

pub get-index :
    (h h' : Header) (k : String)
    → index h (canonical k) ≡ index h' (canonical k)
    → get h k ≡ get h' k
unfolding get
get-index h h' k e = ap first e
