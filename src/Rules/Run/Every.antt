-- ===== src/Rules/Run/Every.antt =====
-- What a computation of the rules may return, whatever session it starts in:
-- platform-services/janitor-bot/src/rules/mod.rs.
use inf_k8s.Prelude.{◌≡◌, refl, Bool, true, false, Option, none, some, if◌then◌else◌}
use inf_k8s.Rules.Clients.{Session, Eval, and_then, pure}

-- What a computation may return, and from which names.
abbrev pub Every : {W A : Type 0} → (A → Type 0) → Option (A × Session W) → Type 0
Every P none = Unit
Every P (some (a, _)) = P a

abbrev pub Always : {W A : Type 0} → (A → Type 0) → Eval W A → Type 0
Always {W} P m = (s : Session W) → Every P (m s)

module _ {W A : Type 0} (P : A → Type 0) where
  pub Every-weaken :
      (Q : A → Type 0) (made : Option (A × Session W))
      → ((a : A) → Q a → P a)
      → Every Q made
      → Every P made
  Every-weaken Q none h k = tt
  Every-weaken Q (some (a, s)) h k = h a k

  pub Every-bind :
      {B : Type 0} (made : Option (B × Session W)) (next : B → Eval W A)
      → ((b : B) → Always P (next b))
      → Every P (and_then made next)
  Every-bind none next h = tt
  Every-bind (some (b, s)) next h = h b s

  pub Every-map :
      {B : Type 0} (Q : B → Type 0) (made : Option (B × Session W)) (f : B → A)
      → Every Q made
      → ((b : B) → Q b → P (f b))
      → Every P (and_then made (λ b. pure (f b)))
  Every-map Q none f h k = tt
  Every-map Q (some (b, s)) f h k = k b h

  pub Always-if :
      (b : Bool) (x y : Eval W A)
      → (b ≡ true → Always P x)
      → (b ≡ false → Always P y)
      → Always P (if b then x else y)
  Always-if true x y h k = h refl
  Always-if false x y h k = k refl
