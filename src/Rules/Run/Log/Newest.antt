-- ===== src/Rules/Run/Log/Newest.antt =====
-- What the log of the evaluations holds: platform-services/janitor-bot/src/rules/mod.rs.
use inf_k8s.Prelude.{
  ℕ, zero, suc, ◌-◌, ◌≤◌, ◌<◌, ◌≡◌, refl, sym, ap, ◌∙◌, leb, if◌then◌else◌, true, false, List, [],
  ◌∷◌, ◌++◌, length, length-append, append_assoc, append-nil, arith, Bool-cases, inl, inr,
}
use inf_k8s.Rules.Run.Log.{
  eval_log_capacity, EvalLogEntry, pop_front, push_bounded, record_eval, record_each,
}

module _ {ℓ} {A : Type ℓ} where
  abbrev pub drop : ℕ → List A → List A
  drop zero xs = xs
  drop (suc n) [] = []
  drop (suc n) (x ∷ xs) = drop n xs

  -- The last elements, so many at most.
  abbrev pub newest : ℕ → List A → List A
  newest n xs = drop (length xs - n) xs

  length-drop : (n : ℕ) (xs : List A) → length (drop n xs) ≡ length xs - n
  length-drop zero xs = omega arith
  length-drop (suc n) [] = omega arith
  length-drop (suc n) (x ∷ xs) = omega (arith, length-drop n xs)

  drop-append : (n : ℕ) (xs ys : List A) → n ≤ length xs → drop n (xs ++ ys) ≡ drop n xs ++ ys
  drop-append zero xs ys h = refl
  drop-append (suc n) [] ys h = absurd (omega arith)
  drop-append (suc n) (x ∷ xs) ys h = drop-append n xs ys (omega arith)

  pop_front-drop : (n : ℕ) (xs : List A) → pop_front (drop n xs) ≡ drop (suc n) xs
  pop_front-drop zero [] = refl
  pop_front-drop zero (x ∷ xs) = refl
  pop_front-drop (suc n) [] = refl
  pop_front-drop (suc n) (x ∷ xs) = pop_front-drop n xs

  push_bounded-newest :
      (c : ℕ) (xs : List A) (x : A)
      → 0 < c
      → push_bounded c (newest c xs) x ≡ newest c (xs ++ x ∷ [])
  unfolding push_bounded
  push_bounded-newest c xs x positive = elim (Bool-cases (leb c (length xs))) [
    | inl full ↦
        let tested : leb c (length (newest c xs)) ≡ true =
          ground (arith, length-drop (length xs - c) xs) in
        let dropped : suc (length xs - c) ≡ length (xs ++ x ∷ []) - c =
          ground (arith, length-append xs (x ∷ [])) in
        ap (λ b. (if b then pop_front (newest c xs) else newest c xs) ++ x ∷ []) tested
        ∙ ap (λ l. l ++ x ∷ []) (pop_front-drop (length xs - c) xs)
        ∙ sym (drop-append (suc (length xs - c)) xs (x ∷ []) (ground arith))
        ∙ ap (λ n. drop n (xs ++ x ∷ [])) dropped
    | inr room ↦
        let tested : leb c (length (newest c xs)) ≡ false =
          ground (arith, length-drop (length xs - c) xs) in
        let dropped : length xs - c ≡ length (xs ++ x ∷ []) - c =
          ground (arith, length-append xs (x ∷ [])) in
        ap (λ b. (if b then pop_front (newest c xs) else newest c xs) ++ x ∷ []) tested
        ∙ sym (drop-append (length xs - c) xs (x ∷ []) (omega arith))
        ∙ ap (λ n. drop n (xs ++ x ∷ [])) dropped
  ]

record_each-after :
    (seen entries : List EvalLogEntry)
    → record_each (newest eval_log_capacity seen) entries
      ≡ newest eval_log_capacity (seen ++ entries)
unfolding record_eval
record_each-after seen [] = ap (newest eval_log_capacity) (sym (append-nil seen))
record_each-after seen (entry ∷ entries) =
    ap (λ log. record_each log entries)
      (push_bounded-newest eval_log_capacity seen entry (omega arith))
    ∙ record_each-after (seen ++ entry ∷ []) entries
    ∙ ap (newest eval_log_capacity) (append_assoc seen (entry ∷ []) entries)

-- After any number of evaluations the log holds the entries of the last 200 of them, in their order,
-- and so never more than 200.
pub record_each-newest :
    (entries : List EvalLogEntry)
    → (record_each [] entries ≡ newest eval_log_capacity entries)
      × (length (record_each [] entries) ≤ eval_log_capacity)
record_each-newest entries =
    let held = record_each-after [] entries in
    (held, rw held (omega (arith, length-drop (length entries - eval_log_capacity) entries)))
