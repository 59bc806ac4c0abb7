-- ===== src/Flags/Samples.antt =====
-- Flags, segments and snapshots that the tests share, with numbers of JSON, a regex and a digest
-- (crates/feature-flag and platform-services/feature-flags).
use inf_k8s.Prelude.{
  arith, ◌==◌, ◌≡◌, refl, ap, sym, String, Bool, true, false, List, [], ◌∷◌, Option, none, some,
  str_eq, if◌then◌else◌, Result, ok, err,
}
use inf_k8s.Prelude.Assoc.{lookup}
use inf_k8s.Prelude.Int.{ℤ, pos, eqb_ℤ}
use inf_k8s.Prelude.Float.{F64, is_finite, of_ℤ}
use inf_k8s.Flags.Json.{Json, Numbers}
use inf_k8s.Flags.Model.{
  ValueType, Operator, Variant, Distribution, Rule, Flag, Snapshot, Segment, EvalContext,
}
use inf_k8s.Flags.Wire
use inf_k8s.Flags.Engine.{Libraries}
use inf_k8s.Flags.Convert.{flag_to_wire}
use inf_k8s.Flags.Manager.{SnapshotManager}

-- Numbers of JSON: integers and floats.
pub data Num : Type 0 where
  int : ℤ → Num
  float : F64 → Num

abbrev same : Num → Num → Bool
same (Num.int a) (Num.int b) = eqb_ℤ a b
same (Num.float a) (Num.float b) = a == b
same _ _ = false

pub same_refl : (n : Num) → same n n ≡ true
same_refl (Num.int i) = ground arith
same_refl (Num.float x) = ground arith

abbrev to_f64 : Num → Option F64
to_f64 (Num.int i) = some (of_ℤ i)
to_f64 (Num.float x) = some x

abbrev to_i64 : Num → Option ℤ
to_i64 (Num.int i) = some i
to_i64 (Num.float x) = none

abbrev finite : F64 → Option Num
finite x = if is_finite x then some (Num.float x) else none

pub finite-some : (x : F64) (n : Num) → finite x ≡ some n → Num.float x ≡ n
finite-some x n h = go (is_finite x) h
  where
    go : (b : Bool) → (if b then some (Num.float x) else none) ≡ some n → Num.float x ≡ n
    go true h = cc
    go false h = cc

abbrev pub numbers : Numbers Num
numbers = record {
  num_eq = same;
  as_f64 = to_f64;
  as_i64 = to_i64;
  from_f64 = finite;
  from_f64_finite = λ x h. (Num.float x, ap (λ b. if b then some (Num.float x) else none) h);
  as_f64-from_f64 = λ x n h. ap to_f64 (sym (finite-some x n h));
  as_i64-from_f64 = λ x n h. ap to_i64 (sym (finite-some x n h));
}

pub to_f64_total : (n : Num) → (x : F64) × (to_f64 n ≡ some x)
to_f64_total (Num.int i) = (of_ℤ i, refl)
to_f64_total (Num.float x) = (x, refl)

-- A pattern that matches itself only, and a digest that is always the same.
abbrev pub lib : Libraries Num
lib = record { numbers = numbers; build_regex = λ p. some (str_eq p); sha256_u64 = λ s. 142 }

abbrev pub on : Variant Num
on = record { key = "on"; value = Json.bool true }

abbrev pub off : Variant Num
off = record { key = "off"; value = Json.bool false }

abbrev pub shares : List Distribution
shares =
    record { variant_key = "on"; weight = 30 } ∷ record { variant_key = "off"; weight = 70 } ∷ []

abbrev rollout : Rule Num
rollout = record {
  rank = 0;
  segment_key = none;
  variant_key = none;
  distributions = shares;
  constraint_groups = [];
  bucket_salt = "";
}

abbrev pub beta : Flag Num
beta = record {
  key = "beta";
  value_type = ValueType.boolean;
  enabled = true;
  default_variant_key = "off";
  archived = false;
  variants = on ∷ off ∷ [];
  rules = rollout ∷ [];
}

abbrev pub snapshot : Snapshot Num
snapshot = record { version = pos 1; flags = ("beta", beta) ∷ []; segments = [] }

abbrev pub somebody : EvalContext Num
somebody = record { targeting_key = "user"; attributes = [] }

pub found : lookup "beta" snapshot.flags ≡ some beta
unfolding lookup
found = refl

abbrev pub staff : Segment Num
staff = record {
  key = "staff";
  name = "Staff";
  constraints =
      record {
        attribute = "mail";
        operator = Operator.ends_with;
        values = Json.string "@example.org" ∷ [];
      }
      ∷ [];
}

abbrev pub anybody : Wire.EvaluationContext
anybody = record { targeting_key = "user"; attributes = none }

-- A flag of the type integer, which the store accepts.
abbrev pub limit : Flag Num
limit = record {
  key = "limit";
  value_type = ValueType.integer;
  enabled = true;
  default_variant_key = "five";
  archived = false;
  variants = record { key = "five"; value = Json.number (Num.float (of_ℤ (pos 5))) } ∷ [];
  rules = [];
}

abbrev pub limits : Snapshot Num
limits = record { version = pos 1; flags = ("limit", limit) ∷ []; segments = [] }

abbrev pub message : Wire.SnapshotResponse
message = record { version = pos 1; flags = flag_to_wire numbers limit ∷ []; segments = [] }

-- A flag that serves another variant where `beta` serves "on".
abbrev pub gated : Flag Num
gated = record {
  key = "gated";
  value_type = ValueType.boolean;
  enabled = true;
  default_variant_key = "off";
  archived = false;
  variants = on ∷ off ∷ [];
  rules =
      record {
        rank = 0;
        segment_key = none;
        variant_key = some "on";
        distributions = [];
        constraint_groups =
            record {
              constraints =
                  record {
                    attribute = "beta";
                    operator = Operator.flag_matches;
                    values = Json.string "on" ∷ [];
                  }
                  ∷ [];
            }
            ∷ [];
        bucket_salt = "";
      }
      ∷ [];
}

abbrev pub beta_on : Flag Num
beta_on = record {
  key = "beta";
  value_type = ValueType.boolean;
  enabled = true;
  default_variant_key = "on";
  archived = false;
  variants = on ∷ off ∷ [];
  rules = [];
}

abbrev pub before : Snapshot Num
before = record { version = pos 1; flags = ("beta", beta) ∷ ("gated", gated) ∷ []; segments = [] }

abbrev pub after : Snapshot Num
after = record { version = pos 2; flags = ("beta", beta_on) ∷ ("gated", gated) ∷ []; segments = [] }

abbrev pub manager : SnapshotManager Num
manager = record { cache = none; current = before; sent = [] }

abbrev pub loads : List (Result String (Snapshot Num))
loads = ok before ∷ err "database error" ∷ ok after ∷ ok before ∷ []

-- Weights whose sum is 2 ^ 32 + 100 are accepted, since the sum wraps around.
abbrev pub wrapped : Rule Num
wrapped = record {
  rank = 0;
  segment_key = none;
  variant_key = none;
  distributions =
      record { variant_key = "on"; weight = 4294967295 }
      ∷ record { variant_key = "off"; weight = 101 }
      ∷ [];
  constraint_groups = [];
  bucket_salt = "";
}

abbrev pub staffed : Snapshot Num
staffed = record { version = pos 1; flags = ("beta", beta) ∷ []; segments = ("staff", staff) ∷ [] }
