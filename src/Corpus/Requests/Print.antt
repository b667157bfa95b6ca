-- ===== src/Corpus/Requests/Print.antt =====
-- What loadRequests of internal/corpus/corpus.go reads back from lines that were printed, and what
-- every request that it reads has.
use claviger.Prelude.{
  ℕ, suc, String, ◌≡◌, refl, true, false, ◌||◌, Error, List, [], ◌∷◌, map, Option, none, some,
  Result, ok, err, ◌>>=◌, arith, sym, ap, ◌∙◌, false≢true, Bool-cases, inl, inr, All, AllOk,
  AllOk-ok, eq_iff, ◌==◌,
}
use claviger.Text.{trim_space, has_prefix, fields, is_empty}
use claviger.Text.Words.{is_word, spaced, trim_space-two, fields-two}
use claviger.Corpus.{CorpusRequest}
use claviger.Corpus.Requests.{request_of, parse_line, push, read_lines, load_requests}

-- A request that a line can hold: a method of one word in upper case that does not start a comment,
-- and a path of one word that starts with a slash, without a header or a body.
pub record IsPlain (upper : String → String) (r : CorpusRequest) : Type 0 where
  pub method : is_word r.method ≡ true
  pub raised : upper r.method ≡ r.method
  pub no_comment : has_prefix r.method "#" ≡ false
  pub path : is_word r.path ≡ true
  pub slash : has_prefix r.path "/" ≡ true
  pub bare : r ≡ record { method = r.method; path = r.path; header = []; body = "" }

-- The line of a request.
abbrev pub print : CorpusRequest → String
print r = spaced r.method r.path

has_prefix-nil : (s : String) → has_prefix s "" ≡ true
unfolding has_prefix
has_prefix-nil String.[] = refl
has_prefix-nil (String.◌∷◌ c s) = refl

nonempty_ne : (s : String) → is_empty s ≡ false → (s == "") ≡ false
nonempty_ne s h = elim (Bool-cases (s == "")) [
  | inl same ↦
      let empty : s ≡ "" = ground (arith, eq_iff s "", same) in
      absurd (false≢true (sym h ∙ ap is_empty empty))
  | inr other ↦ other
]

has_prefix-spaced :
    (m p : String) → is_word m ≡ true → has_prefix (spaced m p) "#" ≡ has_prefix m "#"
unfolding has_prefix
has_prefix-spaced String.[] p h = cc
has_prefix-spaced (String.◌∷◌ c m) p h =
    ground (arith, has_prefix-nil m, has_prefix-nil (spaced m p))

is_empty-spaced : (m p : String) → is_empty (spaced m p) ≡ false
is_empty-spaced String.[] p = refl
is_empty-spaced (String.◌∷◌ c m) p = refl

module _ (upper : String → String) where
  parse_line-print :
      (n : ℕ) (r : CorpusRequest) → IsPlain upper r → parse_line upper n (print r) ≡ ok (some r)
  unfolding parse_line request_of
  parse_line-print n r plain =
      rw
        (
          trim_space-two r.method r.path plain.method plain.path,
          nonempty_ne (spaced r.method r.path) (is_empty-spaced r.method r.path),
          has_prefix-spaced r.method r.path plain.method,
          plain.no_comment,
          fields-two r.method r.path plain.method plain.path,
          plain.slash,
          plain.raised,
        )
        (ap (λ q. ok (some q)) (sym plain.bare))

  -- Plain requests, whose methods ToUpper leaves as they are, that are printed one to a line are read
  -- back as they were.
  pub read_lines-print :
      (n : ℕ) (rs : List CorpusRequest)
      → All (IsPlain upper) rs
      → read_lines upper n (map print rs) ≡ ok rs
  unfolding read_lines
  read_lines-print n [] h = refl
  read_lines-print n (r ∷ rs) (h, hs) =
      rw (parse_line-print n r h, read_lines-print (suc n) rs hs) refl

  -- The path of the request, if there is one, starts with a slash.
  abbrev Slashed : Result (Option CorpusRequest) → Type 0
  Slashed (ok (some r)) = has_prefix r.path "/" ≡ true
  Slashed (ok none) = Unit
  Slashed (err x) = Unit

  request_of-Slashed : (n : ℕ) (words : List String) → Slashed (request_of upper n words)
  unfolding request_of
  request_of-Slashed n [] = tt
  request_of-Slashed n (a ∷ []) = tt
  request_of-Slashed n (a ∷ b ∷ c ∷ words) = tt
  request_of-Slashed n (method ∷ path ∷ []) = elim (Bool-cases (has_prefix path "/")) [
    | inl slash ↦ rw slash slash
    | inr other ↦ rw other tt
  ]

  parse_line-Slashed : (n : ℕ) (line : String) → Slashed (parse_line upper n line)
  unfolding parse_line
  parse_line-Slashed n line =
      elim (Bool-cases ((trim_space line == "") || has_prefix (trim_space line) "#")) [
        | inl skipped ↦ rw skipped tt
        | inr kept ↦ rw kept (request_of-Slashed n (fields (trim_space line)))
      ]

  AllOk-push :
      (m : Result (Option CorpusRequest)) (rest : Result (List CorpusRequest))
      → Slashed m
      → AllOk (λ r. has_prefix r.path "/" ≡ true) rest
      → AllOk (λ r. has_prefix r.path "/" ≡ true) (m >>= λ r. rest >>= λ rs. ok (push r rs))
  AllOk-push (err x) rest h k = tt
  AllOk-push (ok none) (err x) h k = tt
  AllOk-push (ok (some r)) (err x) h k = tt
  AllOk-push (ok none) (ok rs) h k = k
  AllOk-push (ok (some r)) (ok rs) h k = (h, k)

  read_lines-AllOk :
      (n : ℕ) (lines : List String)
      → AllOk (λ r. has_prefix r.path "/" ≡ true) (read_lines upper n lines)
  unfolding read_lines
  read_lines-AllOk n [] = tt
  read_lines-AllOk n (line ∷ lines) =
      AllOk-push (parse_line upper n line) (read_lines upper (suc n) lines)
        (parse_line-Slashed n line) (read_lines-AllOk (suc n) lines)

  AllOk-checked :
      (m : Result (List CorpusRequest)) (failure : Option Error)
      → AllOk (λ r. has_prefix r.path "/" ≡ true) m
      → AllOk
          (λ r. has_prefix r.path "/" ≡ true)
          (m >>= λ rs. elim failure [ none ↦ ok rs | some x ↦ err x ])
  AllOk-checked (err x) failure h = tt
  AllOk-checked (ok rs) none h = h
  AllOk-checked (ok rs) (some x) h = tt

  -- Every request of a requests file has a path that starts with a slash, so that the host of the
  -- target is not glued to it.
  pub load_requests-slash :
      (scan : String → List String × Option Error) (text : String) (reqs : List CorpusRequest)
      → load_requests upper scan text ≡ ok reqs
      → All (λ r. has_prefix r.path "/" ≡ true) reqs
  unfolding load_requests
  load_requests-slash scan text reqs h =
      AllOk-ok (λ r. has_prefix r.path "/" ≡ true) (load_requests upper scan text) reqs h
        (AllOk-checked (read_lines upper 1 (scan text).0) (scan text).1
          (read_lines-AllOk 1 (scan text).0))
