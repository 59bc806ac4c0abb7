-- ===== src/Flags/Convert.antt =====
-- Between the domain model and the wire: crates/feature-flag/feature-flag-engine/src/convert/mod.rs.
mod Enums
mod Values
pub mod RoundTrip
unfoldable pub use Enums.*
unfoldable pub use Values.*
use inf_k8s.Prelude.{
  ℕ, String, Bool, List, [], ◌∷◌, map, Option, none, some, str_eq, if◌then◌else◌, Result, ok, err,
  ◌>>=◌, collect,
}
use inf_k8s.Prelude.Assoc.{Assoc, insert}
use inf_k8s.Flags.Json.{Json, Numbers}
use inf_k8s.Flags.Model.{
  Variant, Constraint, Segment, ConstraintGroup, Distribution, Rule, Flag, Snapshot, EvalContext,
}
use inf_k8s.Flags.Wire
use inf_k8s.Flags.Wire.{value_type_number, value_type_of, operator_number, operator_of}

-- `unwrap_or_default()` on a key, and back: the empty text stands for no key.
abbrev pub key_to_wire : Option String → String
key_to_wire none = ""
key_to_wire (some k) = k

abbrev pub key_from_wire : String → Option String
key_from_wire k = if str_eq k "" then none else some k

unfoldable pub distribution_to_wire : Distribution → Wire.Distribution
distribution_to_wire d = record { variant_key = d.variant_key; weight = d.weight }

unfoldable pub distribution_from_wire : Wire.Distribution → Distribution
distribution_from_wire d = record { variant_key = d.variant_key; weight = d.weight }

module _ {N : Type 0} (num : Numbers N) where
  unfoldable pub context_from_wire : Wire.EvaluationContext → EvalContext N
  unfolding attributes_of
  context_from_wire ctx = record {
    targeting_key = ctx.targeting_key;
    attributes = elim ctx.attributes [ none ↦ [] | some s ↦ attributes_of num s ];
  }

  unfoldable pub variant_to_wire : Variant N → Wire.Variant
  unfolding json_to_prost_value
  variant_to_wire v = record { key = v.key; value = some (json_to_prost_value num v.value) }

  abbrev pub value_or_null : Option Wire.ProstValue → Json N
  value_or_null none = Json.null
  value_or_null (some v) = prost_value_to_json num v

  unfoldable pub variant_from_wire : Wire.Variant → Variant N
  unfolding prost_value_to_json
  variant_from_wire v = record { key = v.key; value = value_or_null v.value }

  unfoldable pub constraint_to_wire : Constraint N → Wire.Constraint
  unfolding json_to_prost_value operator_to_wire
  constraint_to_wire c = record {
    attribute = c.attribute;
    operator = operator_number (operator_to_wire c.operator);
    values = map (json_to_prost_value num) c.values;
  }

  unfoldable pub constraint_from_wire : Wire.Constraint → Result ConversionError (Constraint N)
  unfolding prost_value_to_json operator_from_wire
  constraint_from_wire c = do
    operator ← operator_from_wire (operator_of c.operator)
    ok (record {
      attribute = c.attribute;
      operator = operator;
      values = map (prost_value_to_json num) c.values;
    })

  -- `pb_constraints_to_domain`
  unfoldable pub constraints_from_wire :
      List Wire.Constraint → Result ConversionError (List (Constraint N))
  unfolding constraint_from_wire
  constraints_from_wire = collect constraint_from_wire

  unfoldable pub group_to_wire : ConstraintGroup N → Wire.ConstraintGroup
  unfolding constraint_to_wire
  group_to_wire g = record { constraints = map constraint_to_wire g.constraints }

  unfoldable pub group_from_wire : Wire.ConstraintGroup → Result ConversionError (ConstraintGroup N)
  unfolding constraints_from_wire
  group_from_wire g = do
    constraints ← constraints_from_wire g.constraints
    ok (record { constraints = constraints })

  unfoldable pub rule_to_wire : Rule N → Wire.Rule
  unfolding distribution_to_wire group_to_wire
  rule_to_wire r = record {
    rank = r.rank;
    segment_key = key_to_wire r.segment_key;
    variant_key = key_to_wire r.variant_key;
    distributions = map distribution_to_wire r.distributions;
    constraint_groups = map group_to_wire r.constraint_groups;
    bucket_salt = r.bucket_salt;
  }

  unfoldable pub rule_from_wire : Wire.Rule → Result ConversionError (Rule N)
  unfolding distribution_from_wire group_from_wire
  rule_from_wire r = do
    groups ← collect group_from_wire r.constraint_groups
    ok (record {
      rank = r.rank;
      segment_key = key_from_wire r.segment_key;
      variant_key = key_from_wire r.variant_key;
      distributions = map distribution_from_wire r.distributions;
      constraint_groups = groups;
      bucket_salt = r.bucket_salt;
    })

  unfoldable pub segment_to_wire : Segment N → Wire.Segment
  unfolding constraint_to_wire
  segment_to_wire s = record {
    key = s.key;
    name = s.name;
    constraints = map constraint_to_wire s.constraints;
  }

  unfoldable pub segment_from_wire : Wire.Segment → Result ConversionError (Segment N)
  unfolding constraints_from_wire
  segment_from_wire s = do
    constraints ← constraints_from_wire s.constraints
    ok (record { key = s.key; name = s.name; constraints = constraints })

  unfoldable pub flag_to_wire : Flag N → Wire.Flag
  unfolding value_type_to_wire variant_to_wire rule_to_wire
  flag_to_wire flag = record {
    key = flag.key;
    value_type = value_type_number (value_type_to_wire flag.value_type);
    enabled = flag.enabled;
    default_variant_key = flag.default_variant_key;
    archived = flag.archived;
    variants = map variant_to_wire flag.variants;
    rules = map rule_to_wire flag.rules;
  }

  unfoldable pub flag_from_wire : Wire.Flag → Result ConversionError (Flag N)
  unfolding value_type_from_wire variant_from_wire rule_from_wire
  flag_from_wire f = do
    value_type ← value_type_from_wire (value_type_of f.value_type)
    rules ← collect rule_from_wire f.rules
    ok (record {
      key = f.key;
      value_type = value_type;
      enabled = f.enabled;
      default_variant_key = f.default_variant_key;
      archived = f.archived;
      variants = map variant_from_wire f.variants;
      rules = rules;
    })

  -- The two loops of `TryFrom<SnapshotResponse>`: a later entry replaces one of the same key.
  unfoldable pub add_flags :
      List Wire.Flag → Assoc (Flag N) → Result ConversionError (Assoc (Flag N))
  unfolding flag_from_wire insert
  add_flags [] flags = ok flags
  add_flags (f ∷ fs) flags = do flag ← flag_from_wire f; add_flags fs (insert flag.key flag flags)

  unfoldable pub add_segments :
      List Wire.Segment → Assoc (Segment N) → Result ConversionError (Assoc (Segment N))
  unfolding segment_from_wire insert
  add_segments [] segments = ok segments
  add_segments (s ∷ ss) segments = do
    segment ← segment_from_wire s
    add_segments ss (insert segment.key segment segments)

  unfoldable pub snapshot_from_wire : Wire.SnapshotResponse → Result ConversionError (Snapshot N)
  unfolding add_flags add_segments
  snapshot_from_wire resp = do
    flags ← add_flags resp.flags []
    segments ← add_segments resp.segments []
    ok (record { version = resp.version; flags = flags; segments = segments })
