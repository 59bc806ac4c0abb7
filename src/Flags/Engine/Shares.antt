-- ===== src/Flags/Engine/Shares.antt =====
-- A rollout serves each variant its weight's share of the hundred buckets
-- (crates/feature-flag/feature-flag-engine/src/engine/mod.rs).
use inf_k8s.Prelude.{
  ℕ, zero, suc, ◌+◌, ◌%◌, ◌^◌, ◌≤◌, ◌<◌, ◌≡◌, refl, ap, sym, ◌∙◌, String, Bool, false, List, [],
  ◌∷◌, Option, none, some, arith, str_eq, le→ltb, dec_lt, if◌then◌else◌,
}
use inf_k8s.Flags.Model.{Distribution}
use inf_k8s.Flags.Engine.{Libraries, walk, pick, bucket_of}

-- How many of the `n` numbers from `s` on pass the test.
abbrev pub count_from : ℕ → ℕ → (ℕ → Bool) → ℕ
count_from s zero p = 0
count_from s (suc n) p = (if p s then 1 else 0) + count_from (suc s) n p

-- The sum of the weights, and of those that serve a key.
abbrev pub total_weight : List Distribution → ℕ
total_weight [] = 0
total_weight (d ∷ ds) = d.weight + total_weight ds

abbrev pub weight_of : String → List Distribution → ℕ
weight_of key [] = 0
weight_of key (d ∷ ds) = (if str_eq d.variant_key key then d.weight else 0) + weight_of key ds

-- The loop serves the key, before it ends.
abbrev serves : String → Option String → Bool
serves key none = false
serves key (some k) = str_eq k key

count_from-add :
    (s m n : ℕ) (p : ℕ → Bool) → count_from s (m + n) p ≡ count_from s m p + count_from (s + m) n p
count_from-add s zero n p =
    ap (λ k. count_from s k p) (zero_plus n)
    ∙ ap (λ k. count_from k n p) (plus_zero s)
    ∙ sym (zero_plus _)
  where
    zero_plus : (k : ℕ) → 0 + k ≡ k
    zero_plus k = omega arith

    plus_zero : (k : ℕ) → k ≡ k + 0
    plus_zero k = omega arith
count_from-add s (suc m) n p = omega (
  arith,
  count_from-add (suc s) m n p,
  ap (λ k. count_from s k p) (longer m n),
  ap (λ k. count_from k n p) (further s m),
)
  where
    longer : (i j : ℕ) → suc i + j ≡ suc (i + j)
    longer i j = omega arith

    further : (i j : ℕ) → suc i + j ≡ i + suc j
    further i j = omega arith

-- Two tests that agree on the interval.
count_from_agree :
    (s n : ℕ) (p q : ℕ → Bool)
    → ((x : ℕ) → s ≤ x → x < s + n → p x ≡ q x)
    → count_from s n p ≡ count_from s n q
count_from_agree s zero p q h = refl
count_from_agree s (suc n) p q h = rw (
  h s (omega arith) (omega arith),
  count_from_agree (suc s) n p q (λ x le lt. h x (omega arith) (omega arith)),
)

count_from_const : (s n : ℕ) (b : Bool) → count_from s n (λ _. b) ≡ (if b then n else 0)
count_from_const s zero b = ground arith
count_from_const s (suc n) b = ground (arith, count_from_const (suc s) n b)

-- The loop at a bucket that the first weight covers, and at one behind it.
walk_here :
    (b c : ℕ) (d : Distribution) (ds : List Distribution)
    → c + d.weight < 2 ^ 32
    → b < c + d.weight
    → walk b c (d ∷ ds) ≡ some d.variant_key
unfolding walk
walk_here b c d ds h lt = ground arith

walk_behind :
    (b c : ℕ) (d : Distribution) (ds : List Distribution)
    → c + d.weight < 2 ^ 32
    → c + d.weight ≤ b
    → walk b c (d ∷ ds) ≡ walk b (c + d.weight) ds
unfolding walk
walk_behind b c d ds h le =
    let e : (c + d.weight) % 2 ^ 32 ≡ c + d.weight = omega arith in
    rw e (
      ap (λ t. if t then some d.variant_key else walk b (c + d.weight) ds)
        (le→ltb b (c + d.weight) le))

shares_from :
    (key : String) (c : ℕ) (ds : List Distribution)
    → c + total_weight ds < 2 ^ 32
    → count_from c (total_weight ds) (λ b. serves key (walk b c ds)) ≡ weight_of key ds
shares_from key c [] h = refl
shares_from key c (d ∷ ds) h =
    count_from-add c d.weight (total_weight ds) (λ b. serves key (walk b c (d ∷ ds)))
    ∙ omega (
      arith,
      count_from_agree c d.weight (λ b. serves key (walk b c (d ∷ ds)))
          (λ _. str_eq d.variant_key key)
          (λ b le lt. ap (serves key) (walk_here b c d ds (omega arith) lt)),
      count_from_const c d.weight (str_eq d.variant_key key),
      count_from_agree (c + d.weight) (total_weight ds) (λ b. serves key (walk b c (d ∷ ds)))
          (λ b. serves key (walk b (c + d.weight) ds))
          (λ b le lt. ap (serves key) (walk_behind b c d ds (omega arith) le)),
      shares_from key (c + d.weight) ds (omega arith),
    )

walk_serves :
    (key : String) (b c : ℕ) (ds : List Distribution)
    → c + total_weight ds < 2 ^ 32
    → b < c + total_weight ds
    → c ≤ b
    → (k : String) × (walk b c ds ≡ some k)
walk_serves key b c [] h lt le = absurd (omega arith)
walk_serves key b c (d ∷ ds) h lt le = elim (dec_lt b (c + d.weight)) [
  | yes first ↦ (d.variant_key, walk_here b c d ds (omega arith) first)
  | no later ↦
      let (k, e) = walk_serves key b (c + d.weight) ds (omega arith) (omega arith) (omega arith) in
      (k, walk_behind b c d ds (omega arith) (omega arith) ∙ e)
]

pick-walk : (b : ℕ) (ds : List Distribution) {k : String} → walk b 0 ds ≡ some k → pick b ds ≡ k
unfolding pick
pick-walk b ds e = rw (e, pick)

-- With weights that add up to a hundred, a rollout serves each variant in exactly as many of the
-- hundred buckets as its distributions weigh.
pub pick_shares :
    (key : String) (ds : List Distribution)
    → total_weight ds ≡ 100
    → count_from 0 100 (λ b. str_eq (pick b ds) key) ≡ weight_of key ds
pick_shares key ds h =
    count_from_agree 0 100 (λ b. str_eq (pick b ds) key) (λ b. serves key (walk b 0 ds))
      (λ b le lt.
        let (k, e) = walk_serves key b 0 ds (omega arith) (omega arith) le in
        ap (λ w. str_eq w key) (pick-walk b ds e) ∙ sym (ap (serves key) e))
    ∙ (ap (λ n. count_from 0 n (λ b. serves key (walk b 0 ds))) (sym h)
        ∙ shares_from key 0 ds (omega arith))

-- Every key lands in one of the hundred buckets.
pub bucket_of-lt :
    {N : Type 0} (lib : Libraries N) (flag_key salt targeting_key : String)
    → bucket_of lib flag_key salt targeting_key < 100
unfolding bucket_of
bucket_of-lt lib flag_key salt targeting_key = omega arith
