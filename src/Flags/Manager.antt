-- ===== src/Flags/Manager.antt =====
-- The snapshot that the server holds, and what it publishes:
-- platform-services/feature-flags/src/snapshot.rs.
pub mod Reported
pub mod Versions
use Prim.Native.String.{compare}
use Prim.Native.Nat.{Ordering}
use inf_k8s.Prelude.{
  String, Bool, true, false, not, ◌||◌, List, [], ◌∷◌, ◌++◌, map, Option, none, some, str_eq,
  if◌then◌else◌, any, is_empty, Result, ok, err,
}
use inf_k8s.Prelude.Assoc.{Assoc, lookup}
use inf_k8s.Prelude.Int.{ℤ, leb_ℤ}
use inf_k8s.Flags.Json.{Numbers}
use inf_k8s.Flags.Model.{Segment, Rule, Flag, Snapshot}
use inf_k8s.Flags.Engine.{is_some_and}
use inf_k8s.Flags.Equal.{option_eq, flag_eq, segment_eq}

-- `BTreeSet<&str>`: its elements in ascending order.
unfoldable pub set_insert : String → List String → List String
set_insert k [] = k ∷ []
set_insert k (j ∷ js) =
    let rest = set_insert k js in
    elim (compare k j) [ Ordering.lt ↦ k ∷ j ∷ js | Ordering.eq ↦ j ∷ js | Ordering.gt ↦ j ∷ rest ]

abbrev pub contains : List String → String → Bool
contains set key = any (λ k. str_eq k key) set

-- A loop that inserts the keys that pass a test.
unfoldable pub insert_if : (String → Bool) → List String → List String → List String
unfolding set_insert
insert_if p [] set = set
insert_if p (k ∷ ks) set = let rest = if p k then set_insert k set else set in insert_if p ks rest

abbrev pub keys : {V : Type 0} → Assoc V → List String
keys {V} m = map (λ (e : String × V). e.0) m

-- `old.get(key) != new.get(key)`
abbrev pub differs : {V : Type 0} → (V → V → Bool) → Assoc V → Assoc V → String → Bool
differs eq old new key = not (option_eq eq (lookup key old) (lookup key new))

module _ {N : Type 0} (num : Numbers N) where
  unfoldable pub touched : List String → Flag N → Bool
  touched segments flag =
      any (λ (r : Rule N). is_some_and (contains segments) r.segment_key) flag.rules

  -- The loop over `new.flags.values()`.
  unfoldable pub insert_touched : List String → Assoc (Flag N) → List String → List String
  unfolding set_insert touched
  insert_touched segments [] set = set
  insert_touched segments ((k, flag) ∷ flags) set =
      let next = if touched segments flag then set_insert flag.key set else set in
      insert_touched segments flags next

  unfoldable pub changed_segments : Snapshot N → Snapshot N → List String
  unfolding insert_if segment_eq
  changed_segments old new =
      insert_if (differs (segment_eq num) old.segments new.segments)
        (keys old.segments ++ keys new.segments) []

  unfoldable pub changed_flag_keys : Snapshot N → Snapshot N → List String
  unfolding insert_if insert_touched flag_eq changed_segments
  changed_flag_keys old new =
      let changed =
        insert_if (differs (flag_eq num) old.flags new.flags) (keys old.flags ++ keys new.flags)
          [] in
      let segments = changed_segments old new in
      if not (is_empty segments) then insert_touched segments new.flags changed else changed

-- A published change.
pub record ConfigUpdate : Type 0 where
  pub version : ℤ
  pub changed_flag_keys : List String

-- The manager: the snapshot of the external cache, if there is one, the live snapshot, and what was
-- sent to the subscribers, the newest last.
pub record SnapshotManager (N : Type 0) : Type 0 where
  pub cache : Option (Option (Snapshot N))
  pub current : Snapshot N
  pub sent : List ConfigUpdate

abbrev pub put_snapshot :
    {N : Type 0} → Snapshot N → Option (Option (Snapshot N)) → Option (Option (Snapshot N))
put_snapshot snapshot none = none
put_snapshot snapshot (some cached) = some (some snapshot)

module _ {N : Type 0} (num : Numbers N) where
  -- `reload`, with what `Store::load_snapshot` returned; it fails without a change when that failed.
  unfoldable pub reload :
      {E : Type 0} → Result E (Snapshot N) → SnapshotManager N → SnapshotManager N
  unfolding changed_flag_keys
  reload (err e) m = m
  reload (ok snapshot) m = if leb_ℤ snapshot.version m.current.version then m else record {
    cache = put_snapshot snapshot m.cache;
    current = snapshot;
    sent =
        m.sent
        ++ record {
          version = snapshot.version;
          changed_flag_keys = changed_flag_keys num m.current snapshot;
        }
          ∷ [];
  }

  -- The reloads of the admin calls, of the listener and of the reconcile loop, one after another:
  -- the lock lets no two overlap.
  unfoldable pub reload_all :
      {E : Type 0} → List (Result E (Snapshot N)) → SnapshotManager N → SnapshotManager N
  unfolding reload
  reload_all [] m = m
  reload_all (loaded ∷ later) m = reload_all later (reload loaded m)

unfoldable pub get_flag : {N : Type 0} → SnapshotManager N → String → Option (Flag N)
get_flag m key = lookup key m.current.flags

unfoldable pub get_segment : {N : Type 0} → SnapshotManager N → String → Option (Segment N)
get_segment m key = lookup key m.current.segments
