-- ===== src/Rules/Resolve/Names.antt =====
-- The names that a resolution may still enter (platform-services/janitor-bot/src/rules/mod.rs).
use Prim.Native.String.{◌++◌ as join_text, [], ◌∷◌}
use Prim.Native.String.append
use Prim.Native.Char.{code}
use inf_k8s.Prelude.{
  ℕ, suc, ◌≤◌, ◌<◌, ◌≡◌, refl, ap, String, true, false, str_eq, if◌then◌else◌, List, [], ◌∷◌, ◌++◌,
  map, Option, none, some, ok, length, arith, Bool-cases, Option-cases, ◌==◌, inl, inr, eq_iff,
  eq_refl, ==_iff, length-append,
}
use text.Mathlib.TextEquality.{Char-path}
use inf_k8s.Prelude.Assoc.{Assoc, lookup}
use inf_k8s.Prelude.Text.{strip_prefix}
use inf_k8s.Rules.Types.{Matcher}
use inf_k8s.Rules.Resolve.{has, remove, find_check, or_unknown, Error, fuel_for}

-- How many of the keys have not been entered.
unfoldable pub free : List String → List String → ℕ
free visiting [] = 0
free visiting (k ∷ keys) =
    let rest = free visiting keys in if has k visiting then rest else suc rest

pub free-le-length : (visiting keys : List String) → free visiting keys ≤ length keys
unfolding free
free-le-length visiting [] = omega arith
free-le-length visiting (k ∷ keys) = ground (arith, free-le-length visiting keys)

free-cons-le :
    (name : String) (visiting keys : List String) → free (name ∷ visiting) keys ≤ free visiting keys
unfolding free
free-cons-le name visiting [] = omega arith
free-cons-le name visiting (k ∷ keys) = ground (arith, free-cons-le name visiting keys)

pub free-cons-lt :
    (name : String) (visiting keys : List String)
    → has name keys ≡ true
    → has name visiting ≡ false
    → free (name ∷ visiting) keys < free visiting keys
unfolding free
free-cons-lt name visiting [] listed absent = cc
free-cons-lt name visiting (k ∷ keys) listed absent = ground (
  arith,
  eq_iff name k,
  eq_refl k,
  free-cons-le name visiting keys,
  free-cons-lt name visiting keys,
)

pub remove-absent :
    (name : String) (names : List String) → has name names ≡ false → remove name names ≡ names
unfolding remove
remove-absent name [] h = refl
remove-absent name (n ∷ names) h = ground (arith, remove-absent name names)

pub remove-cons :
    (name : String) (names : List String)
    → has name names ≡ false
    → remove name (name ∷ names) ≡ names
unfolding remove
remove-cons name names h = ground (arith, eq_refl name, remove-absent name names h)

has-append-left :
    (name : String) (xs ys : List String) → has name xs ≡ true → has name (xs ++ ys) ≡ true
has-append-left name [] ys h = cc
has-append-left name (x ∷ xs) ys h = ground (arith, has-append-left name xs ys)

has-append-right :
    (name : String) (xs ys : List String) → has name ys ≡ true → has name (xs ++ ys) ≡ true
has-append-right name [] ys h = h
has-append-right name (x ∷ xs) ys h = ground (arith, has-append-right name xs ys h)

strip_prefix-some : (p s rest : String) → strip_prefix p s ≡ some rest → s ≡ join_text p rest
unfolding strip_prefix
strip_prefix-some [] s rest h = cc (append.nil rest)
strip_prefix-some (p ∷ ps) [] rest h = cc
strip_prefix-some (p ∷ ps) (c ∷ s) rest h = elim (Bool-cases (code p == code c)) [
  | inl same ↦
      let tail = strip_prefix-some ps s rest (rw same at h) in
      let heads = Char-path c p (omega (arith, (==_iff (code p) (code c)).0 same)) in
      cc (append.cons p ps rest)
  | inr other ↦ absurd (ground arith)
]

length-map {ℓ κ} :
    {A : Type ℓ} {B : Type κ} (f : A → B) (xs : List A) → length (map f xs) ≡ length xs
length-map f [] = refl
length-map f (x ∷ xs) = ap suc (length-map f xs)

-- What a map has, the list of its names has, however the names are written.
has-lookup {ℓ} :
    {V : Type ℓ} (write : String → String) (key : String) (entries : Assoc V) (v : V)
    → lookup key entries ≡ some v
    → has (write key) (map (λ e. write e.0) entries) ≡ true
unfolding lookup
has-lookup write key [] v h = cc
has-lookup write key ((here, value) ∷ rest) v h = elim (Bool-cases (str_eq here key)) [
  | inl same ↦ rw (ap write ((eq_iff here key).0 same)) (ground (arith, eq_refl (write key)))
  | inr other ↦
      has-append-right (write key) (write here ∷ []) _ (has-lookup write key rest v (rw other at h))
]

module _ (locals globals : Assoc Matcher) where
  -- Every name that a reference may have.
  abbrev pub names : List String
  names = map (λ e. e.0) locals ++ map (λ e. join_text "global." e.0) globals

  pub free-names-lt : (visiting : List String) → free visiting names < fuel_for locals globals
  free-names-lt visiting = omega (
    arith,
    free-le-length visiting names,
    length-append (map (λ e. e.0) locals) (map (λ e. join_text "global." e.0) globals),
    length-map (λ e. e.0) locals,
    length-map (λ e. join_text "global." e.0) globals,
  )

  or_unknown-ok :
      (e : Error) (o : Option Matcher) (check : Matcher)
      → or_unknown e o ≡ ok check
      → o ≡ some check
  or_unknown-ok e none check h = cc
  or_unknown-ok e (some m) check h = cc

  pub find_check-has :
      (name : String) (check : Matcher)
      → find_check locals globals name ≡ ok check
      → has name names ≡ true
  unfolding find_check
  find_check-has name check h = elim (Option-cases (strip_prefix "global." name)) [
    | inl local ↦ has-append-left name _ _ (
        has-lookup (λ n. n) name locals check
          (or_unknown-ok _ _ check (rw (local, find_check) at h)))
    | inr (g, e) ↦
        let found =
          has-lookup (join_text "global.") g globals check
            (or_unknown-ok _ _ check (rw (e, find_check) at h)) in
        has-append-right name (map (λ e. e.0) locals) _
          (rw (strip_prefix-some "global." name g e) found)
  ]
