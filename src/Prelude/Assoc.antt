-- ===== src/Prelude/Assoc.antt =====
-- `HashMap<String, V>` as an association list. The program reads a map by key, or walks its
-- entries, in an order that it does not rely on.
use Prim.Native.String.{String}
use mathlib.Core.Path.{◌≡◌}
use mathlib.Core.Option.{Option, none, some}
use mathlib.Core.List.{List, [], ◌∷◌}
use native.Mathlib.Omega.{arith}
use text.Mathlib.Text.{◌==◌}
use text.Mathlib.TextEquality.{eq_iff}
use inf_k8s.Prelude.Tests.{if◌then◌else◌}

abbrev pub Assoc {ℓ} : Type ℓ → Type ℓ
Assoc V = List (String × V)

module _ {ℓ} {V : Type ℓ} where
  -- `map.get(key)`
  unfoldable pub lookup : String → Assoc V → Option V
  lookup key [] = none
  lookup key ((here, value) ∷ rest) =
      let later = lookup key rest in if here == key then some value else later

  -- `map.insert(key, new)`: the value of a key that is there is replaced.
  unfoldable pub insert : String → V → Assoc V → Assoc V
  insert key new [] = (key, new) ∷ []
  insert key new ((here, old) ∷ rest) =
      let later = (here, old) ∷ insert key new rest in
      if here == key then (here, new) ∷ rest else later

  -- What an insertion changes: the value of its key, and nothing else.
  pub lookup-insert :
      (key asked : String) (new : V) (entries : Assoc V)
      → lookup asked (insert key new entries)
        ≡ (if key == asked then some new else lookup asked entries)
  unfolding lookup insert
  lookup-insert key asked new [] = ground arith
  lookup-insert key asked new ((here, old) ∷ rest) = ground (
    arith,
    lookup-insert key asked new rest,
    eq_iff here asked,
    eq_iff here key,
    eq_iff key asked,
  )
