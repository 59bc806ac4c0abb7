-- ===== src/Flags/Local/Typed.antt =====
-- The client's typed answers for flags that the store accepts
-- (crates/feature-flag/feature-flag-client/src/local.rs).
use inf_k8s.Prelude.{
  ◌≡◌, refl, ap, ◌∙◌, String, Bool, true, List, ◌∷◌, ◌++◌, Option, none, some, ok,
}
use inf_k8s.Prelude.Assoc.{lookup}
use inf_k8s.Prelude.Maybe.{◌>>=◌}
use inf_k8s.Prelude.Float.{F64}
use inf_k8s.Flags.Json.{Json, Numbers, as_bool, as_str, as_f64}
use inf_k8s.Flags.Model.{ValueType, Flag, Segment, Snapshot, Resolution}
use inf_k8s.Flags.Wire
use inf_k8s.Flags.Engine.{Libraries, evaluate, is_some_and}
use inf_k8s.Flags.Convert.{context_from_wire}
use inf_k8s.Flags.Validate.{has_type, is_whole, validate_desired}
use inf_k8s.Flags.Validate.Evaluates.{evaluate-validate_desired}
use inf_k8s.Flags.Local.{
  Answer, answer, extracted, as_struct, resolve, resolve_bool, resolve_string, resolve_float,
  resolve_object,
}

-- There is an answer, and it is not an error.
abbrev pub Answers : {T : Type 0} → Option (Answer T) → Type 0
Answers {T} o = (a : Answer T) × (o ≡ some a) × (a.error_code ≡ none)

abbrev Extracts : {N T : Type 0} → (Json N → Option T) → Json N → Type 0
Extracts {T = T} extract j = (v : T) × (extract j ≡ some v)

is_some_and-some :
    {A : Type 0} (p : A → Bool) (o : Option A) → is_some_and p o ≡ true → (a : A) × (o ≡ some a)
is_some_and-some p none h = cc
is_some_and-some p (some a) h = (a, refl)

module _ {N : Type 0} (num : Numbers N) where
  Extracts-as_bool : (j : Json N) → has_type num ValueType.boolean j ≡ true → Extracts as_bool j
  unfolding has_type
  Extracts-as_bool (Json.bool b) h = (b, refl)
  Extracts-as_bool Json.null h = cc
  Extracts-as_bool (Json.number n) h = cc
  Extracts-as_bool (Json.string s) h = cc
  Extracts-as_bool (Json.array a) h = cc
  Extracts-as_bool (Json.object o) h = cc

  Extracts-as_str : (j : Json N) → has_type num ValueType.string j ≡ true → Extracts as_str j
  unfolding has_type
  Extracts-as_str (Json.string s) h = (s, refl)
  Extracts-as_str Json.null h = cc
  Extracts-as_str (Json.bool b) h = cc
  Extracts-as_str (Json.number n) h = cc
  Extracts-as_str (Json.array a) h = cc
  Extracts-as_str (Json.object o) h = cc

  Extracts-as_f64_whole :
      (j : Json N) → has_type num ValueType.integer j ≡ true → Extracts (as_f64 num) j
  unfolding has_type
  Extracts-as_f64_whole j h = is_some_and-some is_whole (as_f64 num j) h

  Extracts-as_f64 :
      ((n : N) → (x : F64) × (num.as_f64 n ≡ some x))
      → (j : Json N) → has_type num ValueType.float j ≡ true
      → Extracts (as_f64 num) j
  unfolding has_type
  Extracts-as_f64 f64 (Json.number n) h = f64 n
  Extracts-as_f64 f64 Json.null h = cc
  Extracts-as_f64 f64 (Json.bool b) h = cc
  Extracts-as_f64 f64 (Json.string s) h = cc
  Extracts-as_f64 f64 (Json.array a) h = cc
  Extracts-as_f64 f64 (Json.object o) h = cc

  Extracts-as_struct :
      (j : Json N) → has_type num ValueType.object j ≡ true → Extracts (as_struct num) j
  unfolding has_type as_struct
  Extracts-as_struct (Json.object o) h = (_, refl)
  Extracts-as_struct Json.null h = cc
  Extracts-as_struct (Json.bool b) h = cc
  Extracts-as_struct (Json.number n) h = cc
  Extracts-as_struct (Json.string s) h = cc
  Extracts-as_struct (Json.array a) h = cc

module _ {N : Type 0} (lib : Libraries N) (snapshot : Snapshot N) (key : String)
    (ctx : Wire.EvaluationContext) where
  -- The resolution that fits a flag of a type; an integer is read as a float.
  abbrev pub AnswersAs : ValueType → Type 0
  AnswersAs ValueType.boolean = Answers (resolve_bool lib snapshot key ctx)
  AnswersAs ValueType.string = Answers (resolve_string lib snapshot key ctx)
  AnswersAs ValueType.integer = Answers (resolve_float lib snapshot key ctx)
  AnswersAs ValueType.float = Answers (resolve_float lib snapshot key ctx)
  AnswersAs ValueType.object = Answers (resolve_object lib snapshot key ctx)

  resolve-Answers :
      {T : Type 0} (default : T) (extract : Json N → Option T) (res : Resolution N)
      → evaluate lib snapshot key (context_from_wire lib.numbers ctx) ≡ some (ok res)
      → Extracts extract res.value
      → Answers (resolve lib snapshot default extract key ctx)
  unfolding resolve answer extracted
  resolve-Answers default extract res e (v, found) = (
    _,
    ap (λ o. o >>= λ r. some (answer default extract r)) e
        ∙ ap (λ o. some (extracted default res o)) found,
    refl,
  )

  answers_as :
      (t : ValueType) (res : Resolution N)
      → ((n : N) → (x : F64) × (lib.numbers.as_f64 n ≡ some x))
      → has_type lib.numbers t res.value ≡ true
      → evaluate lib snapshot key (context_from_wire lib.numbers ctx) ≡ some (ok res)
      → AnswersAs t
  unfolding resolve_bool resolve_string resolve_float resolve_object
  answers_as ValueType.boolean res f64 h e =
      resolve-Answers _ as_bool res e (Extracts-as_bool lib.numbers res.value h)
  answers_as ValueType.string res f64 h e =
      resolve-Answers _ as_str res e (Extracts-as_str lib.numbers res.value h)
  answers_as ValueType.integer res f64 h e =
      resolve-Answers _ (as_f64 lib.numbers) res e (Extracts-as_f64_whole lib.numbers res.value h)
  answers_as ValueType.float res f64 h e =
      resolve-Answers _ (as_f64 lib.numbers) res e (Extracts-as_f64 lib.numbers f64 res.value h)
  answers_as ValueType.object res f64 h e =
      resolve-Answers _ (as_struct lib.numbers) res e (Extracts-as_struct lib.numbers res.value h)

  -- A flag of a configuration that the store accepts, in a snapshot that has it, is answered without
  -- an error by the client's resolution for its type, where an integer is read as a float. It is
  -- assumed that every number of the library has a value as an `f64`.
  pub validate_desired-AnswersAs :
      ((n : N) → (x : F64) × (lib.numbers.as_f64 n ≡ some x))
      → (before : List (Flag N)) (flag : Flag N) (after : List (Flag N))
        (segments : List (Segment N))
      → validate_desired lib.numbers (before ++ flag ∷ after) segments ≡ ok tt
      → lookup key snapshot.flags ≡ some flag
      → AnswersAs flag.value_type
  validate_desired-AnswersAs f64 before flag after segments accepted found =
      let (res, e, typed) =
        evaluate-validate_desired lib before flag after segments accepted snapshot key
          (context_from_wire lib.numbers ctx) found in
      answers_as flag.value_type res f64 typed e
