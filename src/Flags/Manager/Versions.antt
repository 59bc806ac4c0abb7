-- ===== src/Flags/Manager/Versions.antt =====
-- The versions that the server holds and sends: platform-services/feature-flags/src/snapshot.rs.
use inf_k8s.Prelude.{
  ◌≡◌, refl, arith, Bool, true, false, List, [], ◌∷◌, ◌++◌, All, Result, ok, err, if◌then◌else◌,
}
use inf_k8s.Prelude.Int.{ℤ, ltb_ℤ, leb_ℤ}
use inf_k8s.Flags.Json.{Numbers}
use inf_k8s.Flags.Model.{Snapshot}
use inf_k8s.Flags.Manager.{ConfigUpdate, SnapshotManager, reload, reload_all}

-- The updates have ascending versions, above the first version and up to the last.
abbrev pub Ascends : ℤ → List ConfigUpdate → ℤ → Type 0
Ascends from [] to = from ≡ to
Ascends from (u ∷ us) to = (ltb_ℤ from u.version ≡ true) × Ascends u.version us to

Ascends-append :
    (from : ℤ) (us : List ConfigUpdate) (to : ℤ) (u : ConfigUpdate)
    → Ascends from us to
    → leb_ℤ u.version to ≡ false
    → Ascends from (us ++ u ∷ []) u.version
Ascends-append from [] to u h n = (ground (arith, h), refl)
Ascends-append from (v ∷ us) to u h n = (h.0, Ascends-append v.version us to u h.1 n)

leb_trans : (a b c : ℤ) → leb_ℤ a b ≡ true → leb_ℤ b c ≡ true → leb_ℤ a c ≡ true
leb_trans a b c h k = ground arith

-- A successful load is not newer than the version.
abbrev pub IsUpTo : {N E : Type 0} → ℤ → Result E (Snapshot N) → Type 0
IsUpTo version (ok snapshot) = leb_ℤ snapshot.version version ≡ true
IsUpTo version (err e) = Unit

if_known :
    {A : Type 0} (P : A → Type 0) (b : Bool) {x y : A}
    → (b ≡ true → P x)
    → (b ≡ false → P y)
    → P (if b then x else y)
if_known P true hx hy = hx refl
if_known P false hx hy = hy refl

module _ {N E : Type 0} (num : Numbers N) where
  reload-Ascends :
      (from : ℤ) (loaded : Result E (Snapshot N)) (m : SnapshotManager N)
      → Ascends from m.sent m.current.version
      → Ascends from (reload num loaded m).sent (reload num loaded m).current.version
  unfolding reload
  reload-Ascends from (err e) m h = h
  reload-Ascends from (ok snapshot) m h =
      if_known (λ (m : SnapshotManager N). Ascends from m.sent m.current.version)
        (leb_ℤ snapshot.version m.current.version) (λ _. h)
        (λ newer. Ascends-append from m.sent m.current.version _ h newer)

  -- However the reloads follow one another, and whether they fail or bring old snapshots, the versions
  -- sent to the subscribers ascend strictly, and the last one is the version of the live snapshot.
  pub reload_all-Ascends :
      (from : ℤ) (loads : List (Result E (Snapshot N))) (m : SnapshotManager N)
      → Ascends from m.sent m.current.version
      → Ascends from (reload_all num loads m).sent (reload_all num loads m).current.version
  unfolding reload_all
  reload_all-Ascends from [] m h = h
  reload_all-Ascends from (loaded ∷ loads) m h =
      reload_all-Ascends from loads (reload num loaded m) (reload-Ascends from loaded m h)

  reload_keeps :
      (loaded : Result E (Snapshot N)) (m : SnapshotManager N)
      → leb_ℤ m.current.version (reload num loaded m).current.version ≡ true
  unfolding reload
  reload_keeps (err e) m = ground arith
  reload_keeps (ok snapshot) m = ground arith

  reload_reaches :
      (loaded : Result E (Snapshot N)) (m : SnapshotManager N)
      → IsUpTo (reload num loaded m).current.version loaded
  unfolding reload
  reload_reaches (err e) m = tt
  reload_reaches (ok snapshot) m = ground arith

  later_keeps :
      (loads : List (Result E (Snapshot N))) (m : SnapshotManager N)
      → leb_ℤ m.current.version (reload_all num loads m).current.version ≡ true
  unfolding reload_all
  later_keeps [] m = ground arith
  later_keeps (loaded ∷ loads) m =
      leb_trans m.current.version (reload num loaded m).current.version _ (reload_keeps loaded m)
        (later_keeps loads (reload num loaded m))

  IsUpTo-later :
      (a b : ℤ) (loaded : Result E (Snapshot N))
      → IsUpTo a loaded
      → leb_ℤ a b ≡ true
      → IsUpTo b loaded
  IsUpTo-later a b (err e) h le = tt
  IsUpTo-later a b (ok snapshot) h le = leb_trans snapshot.version a b h le

  -- After any reloads, the live snapshot is at least as new as every snapshot that was loaded.
  pub reload_all-IsUpTo :
      (loads : List (Result E (Snapshot N))) (m : SnapshotManager N)
      → All (IsUpTo (reload_all num loads m).current.version) loads
  unfolding reload_all
  reload_all-IsUpTo [] m = tt
  reload_all-IsUpTo (loaded ∷ loads) m = (
    IsUpTo-later _ _ loaded (reload_reaches loaded m) (later_keeps loads (reload num loaded m)),
    reload_all-IsUpTo loads (reload num loaded m),
  )
