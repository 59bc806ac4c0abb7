-- ===== src/Rules/Resolve/Settles.antt =====
-- What a resolution ends in: platform-services/janitor-bot/src/rules/mod.rs.
use inf_k8s.Prelude.{
  ℕ, zero, suc, ◌<◌, ◌≡◌, ◌≢◌, refl, sym, ap, ◌∙◌, subst, String, false, List, ◌∷◌, Result, ok, err,
  ◌>>=◌, arith, Bool-cases, Option-cases, inl, inr, Option, none, some,
}
use inf_k8s.Prelude.Assoc.{Assoc}
use inf_k8s.Prelude.Text.{strip_prefix}
use inf_k8s.Rules.Types.{LeafMatcher, LeafExprMatcher, MatcherRef, Matcher, Combinator, Matchers}
use inf_k8s.Rules.Resolve.{
  Error, unknown, unknown_global, out_of_fuel, has, remove, Jump, Resolved, resolve_walk,
  resolve_combinator, resolve_each, find_check, or_unknown, enter, jump_with, resolve_in_matcher,
}
use inf_k8s.Rules.Resolve.Names.{free, free-cons-lt, remove-cons, names, find_check-has}

-- The second matcher is the first with the checks that it names, and those that they name, in the
-- place of their references.
module _ (locals globals : Assoc Matcher) where
  mutual
    pub data Unfolds : Matcher → Matcher → Type 0 where
      leaf : (l : LeafMatcher) → Unfolds (Matcher.leaf l) (Matcher.leaf l)
      leaf_expr : (e : LeafExprMatcher) → Unfolds (Matcher.leaf_expr e) (Matcher.leaf_expr e)
      ref :
          (r : MatcherRef) {check m : Matcher}
          → find_check locals globals r.name ≡ ok check
          → Unfolds check m
          → Unfolds (Matcher.ref r) m
      combinator :
          {c c' : Combinator}
          → UnfoldsIn c c'
          → Unfolds (Matcher.combinator c) (Matcher.combinator c')

    pub data UnfoldsIn : Combinator → Combinator → Type 0 where
      all :
          {ms ms' : Matchers}
          → UnfoldsEach ms ms'
          → UnfoldsIn (Combinator.all ms) (Combinator.all ms')
      any :
          {ms ms' : Matchers}
          → UnfoldsEach ms ms'
          → UnfoldsIn (Combinator.any ms) (Combinator.any ms')
      not : {m m' : Matcher} → Unfolds m m' → UnfoldsIn (Combinator.not m) (Combinator.not m')

    pub data UnfoldsEach : Matchers → Matchers → Type 0 where
      nil : UnfoldsEach Matchers.nil Matchers.nil
      cons :
          {m m' : Matcher} {ms ms' : Matchers}
          → Unfolds m m'
          → UnfoldsEach ms ms'
          → UnfoldsEach (Matchers.cons m ms) (Matchers.cons m' ms')

-- A success has the property, and leaves the set of names as it was; a failure is the source's.
abbrev pub Settles :
    {A : Type 0} → (A → Type 0) → List String → Result Error (A × List String) → Type 0
Settles P visiting (ok (a, after)) = P a × (after ≡ visiting)
Settles P visiting (err e) = e ≢ out_of_fuel

module _ {A B : Type 0} (P : A → Type 0) (Q : B → Type 0) (visiting : List String) where
  pub Settles-bind :
      (first : Result Error (A × List String))
      (next : A × List String → Result Error (B × List String))
      → Settles P visiting first
      → ((a : A) → P a → Settles Q visiting (next (a, visiting)))
      → Settles Q visiting (first >>= next)
  Settles-bind (ok (a, after)) next h k =
      subst (λ v. Settles Q visiting (next (a, v))) (sym h.1) (k a h.0)
  Settles-bind (err e) next h k = h

module _ (locals globals : Assoc Matcher) where
  module _ (jump : Jump) (visiting : List String) where
    module _
        (h : (r : MatcherRef)
          → Settles (Unfolds locals globals (Matcher.ref r)) visiting (jump visiting r.name)) where
      mutual
        unfolding resolve_walk

        walk-Settles :
            (m : Matcher)
            → Settles (Unfolds locals globals m) visiting (resolve_walk jump visiting m)
        walk-Settles (Matcher.ref r) = h r
        walk-Settles (Matcher.combinator c) =
            Settles-bind (UnfoldsIn locals globals c)
              (Unfolds locals globals (Matcher.combinator c)) visiting
              (resolve_combinator jump visiting c) _ (combinator-Settles c)
              λ c' u. (Unfolds.combinator u, refl)
        walk-Settles (Matcher.leaf l) = (Unfolds.leaf l, refl)
        walk-Settles (Matcher.leaf_expr e) = (Unfolds.leaf_expr e, refl)

        combinator-Settles :
            (c : Combinator)
            → Settles (UnfoldsIn locals globals c) visiting (resolve_combinator jump visiting c)
        combinator-Settles (Combinator.all ms) =
            Settles-bind (UnfoldsEach locals globals ms)
              (UnfoldsIn locals globals (Combinator.all ms)) visiting
              (resolve_each jump visiting ms) _ (each-Settles ms) λ ms' u. (UnfoldsIn.all u, refl)
        combinator-Settles (Combinator.any ms) =
            Settles-bind (UnfoldsEach locals globals ms)
              (UnfoldsIn locals globals (Combinator.any ms)) visiting
              (resolve_each jump visiting ms) _ (each-Settles ms) λ ms' u. (UnfoldsIn.any u, refl)
        combinator-Settles (Combinator.not m) =
            Settles-bind (Unfolds locals globals m) (UnfoldsIn locals globals (Combinator.not m))
              visiting (resolve_walk jump visiting m) _ (walk-Settles m)
              λ m' u. (UnfoldsIn.not u, refl)

        each-Settles :
            (ms : Matchers)
            → Settles (UnfoldsEach locals globals ms) visiting (resolve_each jump visiting ms)
        each-Settles Matchers.nil = (UnfoldsEach.nil, refl)
        each-Settles (Matchers.cons m ms) =
            Settles-bind (Unfolds locals globals m)
              (UnfoldsEach locals globals (Matchers.cons m ms)) visiting
              (resolve_walk jump visiting m) _ (walk-Settles m)
              λ m' u.
                Settles-bind (UnfoldsEach locals globals ms)
                  (UnfoldsEach locals globals (Matchers.cons m ms)) visiting
                  (resolve_each jump visiting ms) _ (each-Settles ms)
                  λ ms' us. (UnfoldsEach.cons u us, refl)

  or_unknown-Fails :
      (e : Error) (o : Option Matcher) → e ≢ out_of_fuel → or_unknown e o ≢ err out_of_fuel
  or_unknown-Fails e none other h = ground arith
  or_unknown-Fails e (some m) other h = cc

  -- An unknown check is reported as such.
  find_check-Fails : (name : String) → find_check locals globals name ≢ err out_of_fuel
  unfolding find_check
  find_check-Fails name h = elim (Option-cases (strip_prefix "global." name)) [
    | inl e ↦ or_unknown-Fails (unknown name) _ (λ x. cc) (rw (e, find_check) at h)
    | inr (g, e) ↦ or_unknown-Fails (unknown_global g) _ (λ x. cc) (rw (e, find_check) at h)
  ]

  module _ (resolve : List String → Matcher → Resolved) (r : MatcherRef) (visiting : List String)
      (fresh : has r.name visiting ≡ false) where
    abbrev leave : Matcher × List String → Resolved
    leave (m, after) = ok (m, remove r.name after)

    leave-Settles :
        (check : Matcher) (inner : Resolved)
        → find_check locals globals r.name ≡ ok check
        → Settles (Unfolds locals globals check) (r.name ∷ visiting) inner
        → Settles (Unfolds locals globals (Matcher.ref r)) visiting (inner >>= leave)
    leave-Settles check (ok (m, after)) found h =
        (Unfolds.ref r found h.0, ap (remove r.name) h.1 ∙ remove-cons r.name visiting fresh)
    leave-Settles check (err e) found h = h

    enter-Settles :
        (found : Result Error Matcher)
        → find_check locals globals r.name ≡ found
        → ((check : Matcher)
            → find_check locals globals r.name ≡ ok check
            → Settles
                (Unfolds locals globals check)
                (r.name ∷ visiting)
                (resolve (r.name ∷ visiting) check))
        → Settles
            (Unfolds locals globals (Matcher.ref r))
            visiting
            (enter locals globals resolve visiting r.name)
    unfolding enter
    enter-Settles (ok check) e h = rw e (leave-Settles check _ e (h check e))
    enter-Settles (err failure) e h = rw e (λ same. find_check-Fails r.name (e ∙ ap err same))

  -- With fuel for the names that may still be entered, a resolution comes to its own end.
  pub resolve_in_matcher-Settles :
      (fuel : ℕ) (visiting : List String) (m : Matcher)
      → free visiting (names locals globals) < fuel
      → Settles
          (Unfolds locals globals m)
          visiting
          (resolve_in_matcher locals globals fuel visiting m)
  unfolding resolve_in_matcher jump_with
  resolve_in_matcher-Settles zero visiting m enough = absurd (omega arith)
  resolve_in_matcher-Settles (suc fuel) visiting m enough =
      walk-Settles _ visiting
        (λ r. elim (Bool-cases (has r.name visiting)) [
          | inl visited ↦ rw visited (λ e. cc)
          | inr fresh ↦ rw fresh (
              enter-Settles (resolve_in_matcher locals globals fuel) r visiting fresh _ refl
                λ check found. resolve_in_matcher-Settles fuel (r.name ∷ visiting) check (
                  omega (
                    arith,
                    free-cons-lt r.name visiting (names locals globals)
                        (find_check-has locals globals r.name check found) fresh,
                  )))
        ])
        m
