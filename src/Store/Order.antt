-- ===== src/Store/Order.antt =====
-- Identities of internal/store/store.go gives the names in an order that does not depend on the
-- order in which they were registered.
use text.Mathlib.TextEquality.{eq_iff}
use claviger.Prelude.{
  String, ◌≡◌, refl, ap, ◌∙◌, Bool, ◌||◌, List, [], ◌∷◌, ◌++◌, arith, any, ◌==◌, if◌then◌else◌,
}
use claviger.Text.Order.{is_ordered, is_ordered_total, is_ordered_trans, is_ordered_antisym}
use claviger.Recipe.{Recipe}
use claviger.Store.Entry.{Entry, new_entry}
use claviger.Store.{Store, put_entry, keys, insert_name, sort_names, identities, register}

insert_name-cons :
    (x y : String) (ys : List String)
    → insert_name x (y ∷ ys) ≡ (if is_ordered x y then x ∷ y ∷ ys else y ∷ insert_name x ys)
unfolding insert_name
insert_name-cons x y ys = ground arith

insert_name_comm :
    (a b : String) (xs : List String)
    → insert_name a (insert_name b xs) ≡ insert_name b (insert_name a xs)
unfolding insert_name
insert_name_comm a b [] = ground (
  arith,
  insert_name-cons a b [],
  insert_name-cons b a [],
  is_ordered_total a b,
  is_ordered_antisym a b,
)
insert_name_comm a b (y ∷ ys) = ground (
  arith,
  insert_name_comm a b ys,
  insert_name-cons a y ys,
  insert_name-cons b y ys,
  insert_name-cons a b (y ∷ ys),
  insert_name-cons b a (y ∷ ys),
  insert_name-cons a y (insert_name b ys),
  insert_name-cons b y (insert_name a ys),
  is_ordered_total a b,
  is_ordered_antisym a b,
  is_ordered_trans a b y,
  is_ordered_trans b a y,
)

-- The name is in the list.
abbrev pub has : String → List String → Bool
has id = any (λ k. k == id)

has-insert_name :
    (id x : String) (xs : List String) → has id (insert_name x xs) ≡ (x == id) || has id xs
unfolding insert_name
has-insert_name id x [] = refl
has-insert_name id x (y ∷ ys) = ground (arith, has-insert_name id x ys)

has-sort_names : (id : String) (xs : List String) → has id (sort_names xs) ≡ has id xs
unfolding sort_names
has-sort_names id [] = refl
has-sort_names id (x ∷ xs) =
    ground (arith, has-insert_name id x (sort_names xs), has-sort_names id xs)

sort_names-append :
    (xs : List String) (id : String) → sort_names (xs ++ id ∷ []) ≡ insert_name id (sort_names xs)
unfolding sort_names
sort_names-append [] id = refl
sort_names-append (x ∷ xs) id =
    ap (insert_name x) (sort_names-append xs id) ∙ insert_name_comm x id (sort_names xs)

keys-put_entry :
    {W : Type 0} (id : String) (e : Entry W) (es : List (String × Entry W))
    → keys (put_entry id e es) ≡ (if has id (keys es) then keys es else keys es ++ id ∷ [])
unfolding put_entry
keys-put_entry id e [] = refl
keys-put_entry id e ((j, f) ∷ es) = ground (arith, keys-put_entry id e es)

-- The sorted names with one more, if it is new.
abbrev pub add_name : String → List String → List String
add_name id ks = if has id ks then ks else insert_name id ks

pub add_name_comm :
    (a b : String) (ks : List String) → add_name a (add_name b ks) ≡ add_name b (add_name a ks)
add_name_comm a b ks = ground (
  arith,
  has-insert_name a b ks,
  has-insert_name b a ks,
  insert_name_comm a b ks,
  eq_iff a b,
  eq_iff b a,
)

pub identities-register :
    {W : Type 0} (r : Recipe W) (s : Store W)
    → identities (register r s) ≡ add_name r.identity (identities s)
unfolding identities register
identities-register r s = ground (
  arith,
  keys-put_entry r.identity (new_entry r) s.entries,
  has-sort_names r.identity (keys s.entries),
  sort_names-append (keys s.entries) r.identity,
)
