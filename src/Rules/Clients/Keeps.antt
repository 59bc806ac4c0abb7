-- ===== src/Rules/Clients/Keeps.antt =====
-- Computations that keep a property of the results of leaves in the cache:
-- platform-services/janitor-bot/src/rules/matchers/cache.rs.
use inf_k8s.Prelude.{Bool, true, false, List, Option, none, some, if◌then◌else◌}
use inf_k8s.Rules.Types.{LeafMatcher}
use inf_k8s.Rules.Clients.{Session, Eval, call, lift, and_then, pure, ◌>>=◌}

module _ {W : Type 0} (P : List (LeafMatcher × Bool) → Type 0) where
  -- The session that a computation ends in, if it does not panic, has the property.
  abbrev pub Kept : {A : Type 0} → Option (A × Session W) → Type 0
  Kept none = Unit
  Kept (some (a, s)) = P s.cache.matcher_results

  pub record Keeps {A : Type 0} (m : Eval W A) : Type 0 where
    pub run : (s : Session W) → P s.cache.matcher_results → Kept (m s)

  Kept-bind :
      {A B : Type 0} (made : Option (A × Session W)) (next : A → Eval W B)
      → Kept made
      → ((a : A) → Keeps (next a))
      → Kept (and_then made next)
  Kept-bind none next h k = tt
  Kept-bind (some (a, s)) next h k = (k a).run s h

  pub bind-Keeps :
      {A B : Type 0} (m : Eval W A) (next : A → Eval W B)
      → Keeps m
      → ((a : A) → Keeps (next a))
      → Keeps (m >>= next)
  bind-Keeps m next h k = record { run = λ s p. Kept-bind (m s) next (h.run s p) k }

  pub pure-Keeps : {A : Type 0} (a : A) → Keeps (pure a)
  pure-Keeps a = record { run = λ s h. h }

  pub call-Keeps : {A : Type 0} (f : W → A × W) → Keeps (call f)
  call-Keeps f = record { run = λ s h. h }

  pub lift-Keeps : {A : Type 0} (o : Option A) → Keeps (lift o)
  lift-Keeps none = record { run = λ s h. tt }
  lift-Keeps (some a) = record { run = λ s h. h }

  pub if-Keeps :
      {A : Type 0} (b : Bool) (x y : Eval W A) → Keeps x → Keeps y → Keeps (if b then x else y)
  if-Keeps true x y h k = h
  if-Keeps false x y h k = k

  pub option-Keeps :
      {A B : Type 0} (o : Option B) (x : Eval W A) (f : B → Eval W A)
      → Keeps x
      → ((b : B) → Keeps (f b))
      → Keeps (elim o as (λ _. Eval W A) [ none ↦ x | some b ↦ f b ])
  option-Keeps none x f h k = h
  option-Keeps (some b) x f h k = k b
