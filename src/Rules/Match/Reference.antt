-- ===== src/Rules/Match/Reference.antt =====
-- What a matcher means without a cache, and that the evaluation comes to it:
-- platform-services/janitor-bot/src/rules/matchers/mod.rs.
use inf_k8s.Prelude.{
  ◌≡◌, refl, sym, ap, subst, Bool, true, false, not, ◌&&◌, ◌||◌, List, [], ◌∷◌, Option, none, some,
  Option-cases, inl, inr, All, if◌then◌else◌,
}
use inf_k8s.Expr.Syntax.{Value}
use inf_k8s.Rules.Types.{
  LeafMatcher, LeafMatcher-discrete, Matcher, Combinator, Matchers, nil, cons,
}
use inf_k8s.Rules.Event.{BotEvent}
use inf_k8s.Rules.Schema.{RuleDef}
use inf_k8s.Rules.Clients.{Outside, Session, Eval, and_then, pure}
use inf_k8s.Rules.Leaf.{eval_leaf, eval_leaf_value, number_of, value_or}
use inf_k8s.Rules.Match.{
  cached_result, expr_holds, store_result, cached_leaf, matches, match_all, match_any,
}

-- Each leaf has the property, and no reference is left.
abbrev mutual
  pub OnLeaves : (LeafMatcher → Type 0) → Matcher → Type 0
  OnLeaves P (Matcher.combinator (Combinator.all ms)) = OnEach P ms
  OnLeaves P (Matcher.combinator (Combinator.any ms)) = OnEach P ms
  OnLeaves P (Matcher.combinator (Combinator.not m)) = OnLeaves P m
  OnLeaves P (Matcher.leaf_expr e) = P e.matcher
  OnLeaves P (Matcher.ref r) = ⊥
  OnLeaves P (Matcher.leaf l) = P l

  pub OnEach : (LeafMatcher → Type 0) → Matchers → Type 0
  OnEach P nil = Unit
  OnEach P (cons m ms) = OnLeaves P m × OnEach P ms

abbrev pub number_or : Option Value → Bool → Value
number_or (some number) b = number
number_or none b = Value.bool b

-- The truth of a matcher, where `answer` is that of its leaves.
module _ {W N Now : Type 0} (outside : Outside W N Now) (ev : BotEvent)
    (answer : LeafMatcher → Bool) where
  abbrev pub value_of : LeafMatcher → Value
  value_of l = number_or (number_of ev l) (answer l)

  unfoldable mutual
    pub holds : Matcher → Bool
    holds (Matcher.combinator (Combinator.all ms)) = all_hold ms
    holds (Matcher.combinator (Combinator.any ms)) = any_holds ms
    holds (Matcher.combinator (Combinator.not m)) = not (holds m)
    holds (Matcher.leaf_expr e) = expr_holds outside e.expr (value_of e.matcher)
    holds (Matcher.ref r) = false
    holds (Matcher.leaf l) = answer l

    pub all_hold : Matchers → Bool
    all_hold nil = true
    all_hold (cons m ms) = holds m && all_hold ms

    pub any_holds : Matchers → Bool
    any_holds nil = false
    any_holds (cons m ms) = holds m || any_holds ms

module _ {W N Now : Type 0} (outside : Outside W N Now) (ev : BotEvent) (rule : RuleDef)
    (now : Now) where
  -- A result that is the value, in a session that is fit.
  abbrev pub Gives : {A : Type 0} → (Session W → Type 0) → A → Option (A × Session W) → Type 0
  Gives Fit a none = ⊥
  Gives Fit a (some (b, s)) = (b ≡ a) × Fit s

  -- The results of leaves that a cache has are the answers.
  abbrev pub Agrees : (LeafMatcher → Bool) → List (LeafMatcher × Bool) → Type 0
  Agrees answer results = All (λ (l, b). b ≡ answer l) results

  -- Leaves with the property have fixed answers in every session of the invariant, which their
  -- evaluation keeps, as does a new entry of the cache.
  pub record IsStable (Inv : Session W → Type 0) (P : LeafMatcher → Type 0)
      (answer : LeafMatcher → Bool) : Type 0 where
    pub answers :
        (l : LeafMatcher) (s : Session W)
        → P l
        → Inv s
        → Gives
            (λ s'. Inv s' × (s'.cache.matcher_results ≡ s.cache.matcher_results))
            (answer l)
            (eval_leaf outside ev l rule now s)
    pub kept :
        (l : LeafMatcher) (b : Bool) (s : Session W) → Inv s → Inv (store_result outside l b s)

  module _ {Inv : Session W → Type 0} {P : LeafMatcher → Type 0} {answer : LeafMatcher → Bool}
      (stable : IsStable Inv P answer) where
    abbrev pub Fit : Session W → Type 0
    Fit s = Inv s × Agrees answer s.cache.matcher_results

    Gives-bind :
        {A B : Type 0} (a : A) (b : B) (made : Option (A × Session W)) (next : A → Eval W B)
        → Gives Fit a made
        → ((s : Session W) → Fit s → Gives Fit b (next a s))
        → Gives Fit b (and_then made next)
    Gives-bind a b none next h k = elim h [ ]
    Gives-bind a b (some (a', s)) next h k = subst (λ x. Gives Fit b (next x s)) (sym h.0) (k s h.1)

    cached_result-Agrees :
        (l : LeafMatcher) (results : List (LeafMatcher × Bool)) (b : Bool)
        → Agrees answer results
        → cached_result l results ≡ some b
        → b ≡ answer l
    unfolding cached_result
    cached_result-Agrees l [] b h e = cc
    cached_result-Agrees l ((l', b') ∷ rest) b h e =
        go (λ e'. cached_result-Agrees l rest b h.1 e') (LeafMatcher-discrete l' l) e
      where
        go :
            (cached_result l rest ≡ some b → b ≡ answer l)
            → (d : Dec (l' ≡ l))
            → elim d as (λ _. Option Bool) [ yes _ ↦ some b' | no _ ↦ cached_result l rest ]
              ≡ some b
            → b ≡ answer l
        go later (yes same) e = cc (h.0, ap answer same)
        go later (no _) e = later e

    stored-Gives :
        (l : LeafMatcher) (s : Session W) (made : Option (Bool × Session W))
        → Agrees answer s.cache.matcher_results
        → Gives
            (λ s'. Inv s' × (s'.cache.matcher_results ≡ s.cache.matcher_results))
            (answer l)
            made
        → Gives Fit (answer l) (and_then made (λ b s'. some (b, store_result outside l b s')))
    stored-Gives l s none agrees h = h
    stored-Gives l s (some (b, s')) agrees h =
        (h.0, (stable.kept l b s' h.1.0, (h.0, rw h.1.1 agrees)))

    leaf-Gives :
        (l : LeafMatcher) (s : Session W)
        → P l
        → Fit s
        → Gives Fit (answer l) (cached_leaf outside l (eval_leaf outside ev l rule now) s)
    unfolding cached_leaf
    leaf-Gives l s p h = elim (Option-cases (cached_result l s.cache.matcher_results)) [
      | inl absent ↦ rw absent (stored-Gives l s _ h.1 (stable.answers l s p h.0))
      | inr (b, e) ↦ rw e (cached_result-Agrees l _ b h.1 e, h)
    ]

    evaluated :
        (l : LeafMatcher) (s : Session W)
        → P l
        → Fit s
        → Gives Fit (answer l) (eval_leaf outside ev l rule now s)
    evaluated l s p h = go (eval_leaf outside ev l rule now s) (stable.answers l s p h.0)
      where
        go :
            (made : Option (Bool × Session W))
            → Gives
                (λ s'. Inv s' × (s'.cache.matcher_results ≡ s.cache.matcher_results))
                (answer l)
                made
            → Gives Fit (answer l) made
        go none k = k
        go (some (b, s')) k = (k.0, (k.1.0, rw k.1.1 h.1))

    value-Gives :
        (l : LeafMatcher) (s : Session W)
        → P l
        → Fit s
        → Gives Fit (value_of outside ev answer l) (eval_leaf_value outside ev l rule now s)
    unfolding eval_leaf_value
    value-Gives l s p h = go (number_of ev l)
      where
        go :
            (o : Option Value)
            → Gives Fit (number_or o (answer l)) (value_or o (eval_leaf outside ev l rule now) s)
        go (some number) = (refl, h)
        go none = Gives-bind (answer l) _ _ _ (evaluated l s p h) λ s' h'. (refl, h')

    and_Gives :
        (b c : Bool) (next : Eval W Bool) (s : Session W)
        → Fit s
        → Gives Fit c (next s)
        → Gives Fit (b && c) ((if b then next else pure false) s)
    and_Gives true c next s h k = k
    and_Gives false c next s h k = (refl, h)

    or_Gives :
        (b c : Bool) (next : Eval W Bool) (s : Session W)
        → Fit s
        → Gives Fit c (next s)
        → Gives Fit (b || c) ((if b then pure true else next) s)
    or_Gives true c next s h k = (refl, h)
    or_Gives false c next s h k = k

    mutual
      unfolding matches holds

      matches-Gives :
          (m : Matcher) (s : Session W)
          → OnLeaves P m
          → Fit s
          → Gives Fit (holds outside ev answer m) (matches outside ev rule now m s)
      matches-Gives (Matcher.combinator (Combinator.all ms)) s p h = all-Gives ms s p h
      matches-Gives (Matcher.combinator (Combinator.any ms)) s p h = any-Gives ms s p h
      matches-Gives (Matcher.combinator (Combinator.not m)) s p h =
          Gives-bind (holds outside ev answer m) _ _ _ (matches-Gives m s p h) λ s' h'. (refl, h')
      matches-Gives (Matcher.leaf_expr e) s p h =
          Gives-bind (value_of outside ev answer e.matcher) _ _ _ (value-Gives e.matcher s p h)
            λ s' h'. (refl, h')
      matches-Gives (Matcher.ref r) s p h = elim p [ ]
      matches-Gives (Matcher.leaf l) s p h = leaf-Gives l s p h

      all-Gives :
          (ms : Matchers) (s : Session W)
          → OnEach P ms
          → Fit s
          → Gives Fit (all_hold outside ev answer ms) (match_all outside ev rule now ms s)
      all-Gives nil s p h = (refl, h)
      all-Gives (cons m ms) s p h =
          Gives-bind (holds outside ev answer m) _ _ _ (matches-Gives m s p.0 h) λ s' h'.
            and_Gives (holds outside ev answer m) _ (match_all outside ev rule now ms) s' h'
              (all-Gives ms s' p.1 h')

      any-Gives :
          (ms : Matchers) (s : Session W)
          → OnEach P ms
          → Fit s
          → Gives Fit (any_holds outside ev answer ms) (match_any outside ev rule now ms s)
      any-Gives nil s p h = (refl, h)
      any-Gives (cons m ms) s p h =
          Gives-bind (holds outside ev answer m) _ _ _ (matches-Gives m s p.0 h) λ s' h'.
            or_Gives (holds outside ev answer m) _ (match_any outside ev rule now ms) s' h'
              (any-Gives ms s' p.1 h')

module _ {W N Now : Type 0} (outside : Outside W N Now) (ev : BotEvent) where
  returned :
      {Fit : Session W → Type 0} (rule : RuleDef) (now : Now) (a : Bool)
      (made : Option (Bool × Session W))
      → Gives outside ev rule now Fit a made
      → (s' : Session W) × (made ≡ some (a, s')) × Fit s'
  returned rule now a none h = elim h [ ]
  returned rule now a (some (b, s')) h = (s', ap (λ x. some (x, s')) h.0, h.1)

  -- Where the leaves of a matcher have fixed answers and the cache agrees with them, the evaluation
  -- of the matcher returns without a panic: its result is the truth of the matcher by the answers,
  -- as it would be without a cache, and the cache agrees with them afterwards.
  pub matches-holds :
      (rule : RuleDef) (now : Now) (Inv : Session W → Type 0) (P : LeafMatcher → Type 0)
      (answer : LeafMatcher → Bool)
      → IsStable outside ev rule now Inv P answer
      → (m : Matcher) (s : Session W) → OnLeaves P m
      → Inv s × Agrees outside ev rule now answer s.cache.matcher_results
      → (s' : Session W) × (matches outside ev rule now m s ≡ some (holds outside ev answer m, s'))
        × (Inv s' × Agrees outside ev rule now answer s'.cache.matcher_results)
  matches-holds rule now Inv P answer stable m s p h =
      returned rule now (holds outside ev answer m) _
        (matches-Gives outside ev rule now stable m s p h)
