-- ===== src/Flags/Bulk/Listed.antt =====
-- What a resolution of every flag lists: platform-services/feature-flags/src/grpc/evaluation.rs.
use inf_k8s.Prelude.{
  ◌≡◌, refl, ap, ◌∙◌, String, Bool, true, false, List, [], ◌∷◌, map, Option, some, if◌then◌else◌,
  ok, err,
}
use inf_k8s.Prelude.Assoc.{Assoc}
use inf_k8s.Prelude.Maybe.{◌>>=◌, Returns}
use inf_k8s.Flags.Model.{Flag, Snapshot, EvalContext}
use inf_k8s.Flags.Wire
use inf_k8s.Flags.Engine.{Libraries, Resolved, evaluate}
use inf_k8s.Flags.Engine.Total.{evaluate_total}
use inf_k8s.Flags.Convert.{context_from_wire}
use inf_k8s.Flags.Bulk.{evaluated_flag, evaluate_each, resolve_all}

abbrev pub listed_keys : List Wire.EvaluatedFlag → List String
listed_keys = map (λ (f : Wire.EvaluatedFlag). f.flag_key)

-- The keys of the flags that are not archived, in the order of the map.
abbrev pub live_keys : {N : Type 0} → Assoc (Flag N) → List String
live_keys [] = []
live_keys ((key, flag) ∷ flags) =
    let later = live_keys flags in if flag.archived then later else key ∷ later

-- A list is returned, with those keys.
abbrev pub Lists : Option (List Wire.EvaluatedFlag) → List String → Type 0
Lists o keys = (fs : List Wire.EvaluatedFlag) × (o ≡ some fs) × (listed_keys fs ≡ keys)

Lists-if :
    (b : Bool) {x y : Option (List Wire.EvaluatedFlag)} {j k : List String}
    → Lists x j
    → Lists y k
    → Lists (if b then x else y) (if b then j else k)
Lists-if true h i = h
Lists-if false h i = i

module _ {N : Type 0} (lib : Libraries N) where
  evaluated-key :
      (key : String) (flag : Flag N) (r : Resolved N)
      → (evaluated_flag lib key flag r).flag_key ≡ key
  unfolding evaluated_flag
  evaluated-key key flag (ok res) = refl
  evaluated-key key flag (err e) = refl

  one_more :
      (key : String) (flag : Flag N) (m : Option (Resolved N))
      (later : Option (List Wire.EvaluatedFlag)) (ks : List String)
      → Returns m
      → Lists later ks
      → Lists (m >>= λ r. later >>= λ rest. some (evaluated_flag lib key flag r ∷ rest)) (key ∷ ks)
  one_more key flag m later ks (r, e) (rest, f, same) = (
    evaluated_flag lib key flag r ∷ rest,
    ap (λ o. o >>= λ r. later >>= λ rest. some (evaluated_flag lib key flag r ∷ rest)) e
        ∙ ap (λ o. o >>= λ rest. some (evaluated_flag lib key flag r ∷ rest)) f,
    ap (λ k. k ∷ listed_keys rest) (evaluated-key key flag r) ∙ ap (λ l. key ∷ l) same,
  )

  each-Lists :
      (snapshot : Snapshot N) (ctx : EvalContext N) (flags : Assoc (Flag N))
      → Lists (evaluate_each lib snapshot ctx flags) (live_keys flags)
  unfolding evaluate_each
  each-Lists snapshot ctx [] = ([], refl, refl)
  each-Lists snapshot ctx ((key, flag) ∷ flags) =
      let later = each-Lists snapshot ctx flags in
      Lists-if flag.archived later (
        one_more key flag (evaluate lib snapshot key ctx) (evaluate_each lib snapshot ctx flags)
          (live_keys flags) (evaluate_total lib ctx snapshot key) later)

  -- The resolution of every flag answers for each flag of the snapshot that is not archived, once
  -- and in their order, whether or not the flag evaluates with an error.
  pub resolve_all-Lists :
      (snapshot : Snapshot N) (ctx : Wire.EvaluationContext)
      → Lists (resolve_all lib snapshot ctx) (live_keys snapshot.flags)
  unfolding resolve_all
  resolve_all-Lists snapshot ctx =
      each-Lists snapshot (context_from_wire lib.numbers ctx) snapshot.flags
