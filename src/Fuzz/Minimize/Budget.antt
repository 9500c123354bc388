-- ===== src/Fuzz/Minimize/Budget.antt =====
-- The budget of minimize_failures (apiverity/fuzz/minimize.py).
use api_verity_lab.Common.{
  ℕ, zero, Option-cases, suc, ◌-◌, String, ◌&&◌, Option, none, some, List, [], ◌∷◌, ◌==◌, ◌≡◌, refl,
  arith, text_ord, get, ltb, length, true, false, Bool, dict_of, map, Bool-cases, inl, inr,
}
use api_verity_lab.Model.Operation.{Operation, key}
use api_verity_lab.Fuzz.Minimize.{
  Server, TestCase, TestResult, CaseBody, missing, opaque, fields, required_fields, reported,
  not_minimizable, minimize_body, minimize_case, has_fields, minimize_one, minimize_all,
  minimize_failures,
}
use api_verity_lab.Fuzz.Minimize.Ends.{shrink-some}

module _ (server : TestCase → Server) (error : String) where
  module _ (ops : List (String × Operation)) (cases : List (String × TestCase)) where
    -- the result is a failure of a known case whose body is a dict
    abbrev pub is_reducible : TestResult → Bool
    is_reducible result =
        result.status == "fail" && has_fields server error (get result.case_id cases)

    -- `small` is what minimize_case gives for the case of `result`.
    pub record IsSmaller (result small : TestResult) : Type 0 where
      pub case : TestCase
      pub known : get result.case_id cases ≡ some case
      pub made : minimize_case server error (get result.operation_key ops) case ≡ some small

    -- `Replaced budget results out`: from the front on, the failures that can be reduced are replaced by
    -- smaller ones while there is budget, each for one; all other results stay as they are.
    pub data Replaced : ℕ → List TestResult → List TestResult → Type 0 where
      finished : {budget : ℕ} → Replaced budget [] []
      replaced :
          {budget : ℕ} {result small : TestResult} {rest out : List TestResult}
          → is_reducible result ≡ true
          → IsSmaller result small
          → Replaced budget rest out
          → Replaced (suc budget) (result ∷ rest) (small ∷ out)
      untouched :
          {budget : ℕ} {result : TestResult} {rest out : List TestResult}
          → is_reducible result ≡ false
          → Replaced budget rest out
          → Replaced budget (result ∷ rest) (result ∷ out)
      spent : {results : List TestResult} → Replaced 0 results results

  minimize_body-some :
      (case : TestCase) (required : List String) (body : CaseBody)
      → (r : TestResult) × (minimize_body server error case required body ≡ some r)
  unfolding minimize_body
  minimize_body-some case required missing = (not_minimizable case, refl)
  minimize_body-some case required (opaque value) = (not_minimizable case, refl)
  minimize_body-some case required (fields body) =
      let (n, left, same, _) =
        shrink-some (server case) required (suc (length body)) body 0 (omega arith) in
      (reported case error (server case n left), rw (same, minimize_body) refl)

  minimize_case-some :
      (op : Option Operation) (case : TestCase)
      → (r : TestResult) × (minimize_case server error op case ≡ some r)
  unfolding minimize_case
  minimize_case-some none case = (not_minimizable case, refl)
  minimize_case-some (some op) case = minimize_body-some case (required_fields op) case.body

  minimize_spent :
      (ops : List (String × Operation)) (cases : List (String × TestCase))
      (results : List TestResult)
      → minimize_all server error ops cases 0 results ≡ some results
  unfolding minimize_all
  minimize_spent ops cases [] = refl
  minimize_spent ops cases (result ∷ rest) = rw (minimize_spent ops cases rest) refl

  -- a result whose body is a dict, by its case
  minimize_one-some :
      (ops : List (String × Operation)) (cases : List (String × TestCase)) (result : TestResult)
      → has_fields server error (get result.case_id cases) ≡ true
      → (small : TestResult) × (minimize_one server error ops (get result.case_id cases) result
          ≡ some small)
        × IsSmaller ops cases result small
  unfolding minimize_one has_fields
  minimize_one-some ops cases result found = elim (Option-cases (get result.case_id cases)) [
    | inl e ↦ absurd (ground (arith, e, found))
    | inr (case, e) ↦
        let (small, same) = minimize_case-some (get result.operation_key ops) case in
        (small, rw (e, minimize_one) same, record { case = case; known = e; made = same })
  ]

  minimize_all-some :
      (ops : List (String × Operation)) (cases : List (String × TestCase)) (budget : ℕ)
      (results : List TestResult)
      → (out : List TestResult) × (minimize_all server error ops cases budget results ≡ some out)
        × Replaced ops cases budget results out
  unfolding minimize_all
  minimize_all-some ops cases budget [] = ([], refl, finished)
  minimize_all-some ops cases zero (result ∷ rest) =
      (result ∷ rest, minimize_spent ops cases (result ∷ rest), spent)
  minimize_all-some ops cases (suc budget) (result ∷ rest) =
      let case = get result.case_id cases in
      let here = ltb 0 (suc budget) && result.status == "fail" && has_fields server error case in
      let one_less : suc budget - 1 ≡ budget = omega arith in
      elim (Bool-cases here) [
        | inl chosen ↦
            let (small, e, smaller) = minimize_one-some ops cases result (ground (arith, chosen)) in
            let (out, same, done) = minimize_all-some ops cases budget rest in
            (
              small ∷ out,
              rw (chosen, minimize_all) (rw (e, one_less) (rw same refl)),
              replaced (ground (arith, chosen)) smaller done,
            )
        | inr other ↦
            let (out, same, done) = minimize_all-some ops cases (suc budget) rest in
            (
              result ∷ out,
              rw (other, minimize_all) (rw same refl),
              untouched (ground (arith, other)) done,
            )
      ]

  -- The loop over the results ends with a list in which the first max_minimize failures of a known case
  -- whose body is a dict, or all if there are fewer, are replaced by what minimize_case gives for
  -- the case; every other result is the old one, in its old place.
  pub minimize_failures-Replaced :
      (operations : List Operation) (results : List TestResult) (cases : List TestCase)
      (max_minimize : ℕ)
      → (out : List TestResult) × (minimize_failures server error operations results cases
            max_minimize
          ≡ some out)
        × Replaced
            (dict_of (map (λ op. (key op, op)) operations))
            (dict_of (map (λ c. (c.id, c)) cases))
            max_minimize
            results
            out
  unfolding minimize_failures
  minimize_failures-Replaced operations results cases max_minimize =
      minimize_all-some _ _ max_minimize results
