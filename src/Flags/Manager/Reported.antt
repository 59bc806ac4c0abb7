-- ===== src/Flags/Manager/Reported.antt =====
-- Which flags a change reports: platform-services/feature-flags/src/snapshot.rs.
use inf_k8s.Prelude.{
  ◌≡◌, refl, ap, sym, ◌∙◌, arith, String, Bool, true, false, not, ◌&&◌, ◌||◌, List, [], ◌∷◌, ◌++◌,
  Option, none, some, str_eq, eq_iff, if◌then◌else◌, any, is_empty,
}
use inf_k8s.Prelude.Assoc.{Assoc, lookup}
use inf_k8s.Flags.Json.{Numbers}
use inf_k8s.Flags.Model.{Rule, Flag, Snapshot}
use inf_k8s.Flags.Engine.{is_some_and}
use inf_k8s.Flags.Equal.{option_eq, flag_eq, segment_eq}
use inf_k8s.Flags.Manager.{
  set_insert, contains, insert_if, keys, differs, touched, insert_touched, changed_segments,
  changed_flag_keys,
}

contains-set_insert :
    (k j : String) (set : List String)
    → contains (set_insert k set) j ≡ (str_eq k j || contains set j)
unfolding set_insert
contains-set_insert k j [] = refl
contains-set_insert k j (i ∷ is) =
    ground (arith, contains-set_insert k j is, eq_iff k j, eq_iff k i, eq_iff i j)

contains-insert_when :
    (b : Bool) (k : String) (set : List String) (j : String)
    → contains (if b then set_insert k set else set) j ≡ ((b && str_eq k j) || contains set j)
contains-insert_when true k set j = contains-set_insert k j set
contains-insert_when false k set j = refl

contains-insert_if :
    (p : String → Bool) (ks set : List String) (j : String)
    → contains (insert_if p ks set) j ≡ ((p j && contains ks j) || contains set j)
unfolding insert_if
contains-insert_if p [] set j = ground arith
contains-insert_if p (k ∷ ks) set j =
    contains-insert_if p ks (if p k then set_insert k set else set) j
    ∙ (ap (λ b. (p j && contains ks j) || b) (contains-insert_when (p k) k set j)
        ∙ reorder (p j) (p k) (contains ks j) (str_eq k j) (contains set j)
            (λ e. ap p (sym ((eq_iff k j).0 e))))
  where
    reorder :
        (pj pk later here earlier : Bool)
        → (here ≡ true → pj ≡ pk)
        → ((pj && later) || ((pk && here) || earlier)) ≡ ((pj && (here || later)) || earlier)
    reorder pj pk later true earlier h = ground (arith, h refl)
    reorder pj pk later false earlier h = ground arith

contains-append :
    (a b : List String) (j : String) → contains (a ++ b) j ≡ (contains a j || contains b j)
contains-append [] b j = refl
contains-append (k ∷ a) b j = ground (arith, contains-append a b j)

lookup_unlisted :
    {V : Type 0} (m : Assoc V) (j : String) → contains (keys m) j ≡ false → lookup j m ≡ none
unfolding lookup
lookup_unlisted [] j h = refl
lookup_unlisted ((k, v) ∷ m) j h = ground (arith, lookup_unlisted m j)

-- A key that neither map has does not differ.
differs_unlisted :
    {V : Type 0} (eq : V → V → Bool) (old new : Assoc V) (j : String)
    → contains (keys old ++ keys new) j ≡ false
    → differs eq old new j ≡ false
differs_unlisted eq old new j e =
    let (in_old, in_new) =
      or_false (contains (keys old) j) (contains (keys new) j)
        (sym (contains-append (keys old) (keys new) j) ∙ e) in
    ap (λ o. not (option_eq eq o (lookup j new))) (lookup_unlisted old j in_old)
    ∙ ap (λ o. not (option_eq eq none o)) (lookup_unlisted new j in_new)
  where
    or_false : (a b : Bool) → (a || b) ≡ false → (a ≡ false) × (b ≡ false)
    or_false true b h = cc
    or_false false b h = (refl, h)

differs-contains :
    {V : Type 0} (eq : V → V → Bool) (old new : Assoc V) (j : String)
    → (differs eq old new j && contains (keys old ++ keys new) j) ≡ differs eq old new j
differs-contains eq old new j =
    both (differs eq old new j) (contains (keys old ++ keys new) j) (differs_unlisted eq old new j)
  where
    both : (d c : Bool) → (c ≡ false → d ≡ false) → (d && c) ≡ d
    both true true h = refl
    both true false h = sym (h refl)
    both false c h = refl

-- The keys that a comparison of two maps collects are those whose values differ.
contains_differing :
    {V : Type 0} (eq : V → V → Bool) (old new : Assoc V) (j : String)
    → contains (insert_if (differs eq old new) (keys old ++ keys new) []) j ≡ differs eq old new j
contains_differing eq old new j =
    contains-insert_if (differs eq old new) (keys old ++ keys new) [] j
    ∙ (or_nil _ ∙ differs-contains eq old new j)
  where
    or_nil : (b : Bool) → (b || false) ≡ b
    or_nil true = refl
    or_nil false = refl

any_ext :
    {A : Type 0} {p q : A → Bool} → ((x : A) → p x ≡ q x) → (xs : List A) → any p xs ≡ any q xs
any_ext h [] = refl
any_ext h (x ∷ xs) = rw (h x, any_ext h xs)

any_false : {A : Type 0} (p : A → Bool) → ((x : A) → p x ≡ false) → (xs : List A) → any p xs ≡ false
any_false p h [] = refl
any_false p h (x ∷ xs) = ap (λ b. b || any p xs) (h x) ∙ any_false p h xs

swap : (t k later set : Bool) → (later || ((t && k) || set)) ≡ (((k && t) || later) || set)
swap t k later set = ground arith

module _ {N : Type 0} (num : Numbers N) where
  contains-insert_touched :
      (segments : List String) (flags : Assoc (Flag N)) (set : List String) (j : String)
      → contains (insert_touched num segments flags set) j ≡ (
          any (λ (e : String × Flag N). str_eq e.1.key j && touched num segments e.1) flags
          || contains set j)
  unfolding insert_touched
  contains-insert_touched segments [] set j = refl
  contains-insert_touched segments ((k, flag) ∷ flags) set j =
      contains-insert_touched segments flags
        (if touched num segments flag then set_insert flag.key set else set) j
      ∙ (ap
            (λ b.
              any (λ (e : String × Flag N). str_eq e.1.key j && touched num segments e.1) flags
              || b)
            (contains-insert_when (touched num segments flag) flag.key set j)
          ∙ swap (touched num segments flag) (str_eq flag.key j) _ (contains set j))

  -- A rule of the flag names a segment that is not the same in both snapshots.
  abbrev pub names_changed : Snapshot N → Snapshot N → Flag N → Bool
  names_changed old new flag =
      any
        (λ (r : Rule N).
          is_some_and (differs (segment_eq num) old.segments new.segments) r.segment_key)
        flag.rules

  names-changed_segments :
      (old new : Snapshot N) (o : Option String)
      → is_some_and (contains (changed_segments num old new)) o
        ≡ is_some_and (differs (segment_eq num) old.segments new.segments) o
  unfolding changed_segments
  names-changed_segments old new none = refl
  names-changed_segments old new (some s) =
      contains_differing (segment_eq num) old.segments new.segments s

  touched-changed_segments :
      (old new : Snapshot N) (flag : Flag N)
      → touched num (changed_segments num old new) flag ≡ names_changed old new flag
  unfolding touched
  touched-changed_segments old new flag =
      any_ext (λ (r : Rule N). names-changed_segments old new r.segment_key) flag.rules

  -- Without a changed segment no flag is touched, so that the test before the second loop changes
  -- nothing.
  untouched : (flag : Flag N) → touched num [] flag ≡ false
  unfolding touched
  untouched flag = any_false _ (λ (r : Rule N). nothing r.segment_key) flag.rules
    where
      nothing : (o : Option String) → is_some_and (contains []) o ≡ false
      nothing none = refl
      nothing (some s) = refl

  second_loop :
      (segments : List String) (flags : Assoc (Flag N)) (set : List String) (j : String)
      → contains (if not (is_empty segments) then insert_touched num segments flags set else set) j
        ≡ (any (λ (e : String × Flag N). str_eq e.1.key j && touched num segments e.1) flags
            || contains set j)
  second_loop (s ∷ segments) flags set j = contains-insert_touched (s ∷ segments) flags set j
  second_loop [] flags set j = sym (
      ap (λ b. b || contains set j)
        (any_false _ (λ (e : String × Flag N). and_false (str_eq e.1.key j) _ (untouched e.1))
          flags))
    where
      and_false : (a b : Bool) → b ≡ false → (a && b) ≡ false
      and_false a b h = ground arith

  -- A change reports a key exactly if the flag under it is not `==` in the two snapshots, or there is
  -- a flag of that key in the new one with a rule whose segment is not.
  pub contains-changed_flag_keys :
      (old new : Snapshot N) (key : String)
      → contains (changed_flag_keys num old new) key ≡ (
          any (λ (e : String × Flag N). str_eq e.1.key key && names_changed old new e.1) new.flags
          || differs (flag_eq num) old.flags new.flags key)
  unfolding changed_flag_keys
  contains-changed_flag_keys old new key =
      second_loop (changed_segments num old new) new.flags _ key
      ∙ (ap
            (λ b.
              b
              || contains
                  (insert_if (differs (flag_eq num) old.flags new.flags)
                    (keys old.flags ++ keys new.flags) [])
                  key)
            (any_ext
              (λ (e : String × Flag N).
                ap (λ b. str_eq e.1.key key && b) (touched-changed_segments old new e.1))
              new.flags)
          ∙ ap
              (λ b.
                any (λ (e : String × Flag N). str_eq e.1.key key && names_changed old new e.1)
                  new.flags
                || b)
              (contains_differing (flag_eq num) old.flags new.flags key))
