-- ===== src/Rules/Budget/Evaluate/Within.antt =====
-- `evaluate` of apiverity/rules/budget.py reports no error just when the calls keep to the budget.
use api_verity_lab.Common.{
  ℕ, String, true, false, Option, some, List, [], ◌∷◌, ◌++◌, ◌≡◌, ◌≢◌, ◌↔◌, refl, sym, ◌∙◌, subst,
  arith, nat_ord, text_ord, contains, contains-sorted_set, contains-keys, sorted_set, keys, get,
  map, any, any-append, Bool, is_some, All,
}
use api_verity_lab.Model.Finding.{Finding}
use api_verity_lab.Rules.Budget.Observed.{Call, observe}
use api_verity_lab.Rules.Budget.Observed.Counted.{summary, times_of, observe-summary}
use api_verity_lab.Rules.Budget.Evaluate.{
  Budget, parse_window, declared_findings, unbudgeted_findings, all_findings, is_mixed, evaluate,
}
use api_verity_lab.Rules.Budget.Evaluate.Operations.{
  is_error, has_error, AllDeclared, declared_findings_lem, Covered, unbudgeted_lem,
}
use api_verity_lab.Rules.Budget.Evaluate.Limits.{Keeps, limits_findings_lem}

module _ (isoformat : ℕ → String) (parse_instant : String → Option ℕ) where
  -- the calls keep to the budget
  pub record IsWithin (budget : Budget) (calls : List Call) (declared : Option (List String))
      : Type 0 where
    pub known : AllDeclared declared budget.limits
    pub kept : All (λ l. Keeps l (times_of parse_instant l.operation_key calls)) budget.limits
    pub covered :
        budget.deny_by_default ≡ true
        → (k : String) → times_of parse_instant k calls ≢ []
        → contains k (map (λ l. l.operation_key) budget.limits) ≡ true

  is_some-summary : (times : List (Option ℕ)) → (is_some (summary times) ≡ true) ↔ (times ≢ [])
  unfolding summary
  is_some-summary [] = (λ e. absurd (cc e), λ h. absurd (h refl))
  is_some-summary (t ∷ ts) = (λ e z. cc z, λ h. refl)

  Covered-observe :
      (calls : List Call) (budgeted : List String)
      → Covered
          (sorted_set (keys (observe parse_instant calls)))
          (observe parse_instant calls)
          budgeted
        ↔ ((k : String) → times_of parse_instant k calls ≢ [] → contains k budgeted ≡ true)
  unfolding Covered
  Covered-observe calls budgeted =
      let seen = observe parse_instant calls in
      let is_seen : (k : String) → contains k (sorted_set (keys seen)) ≡ is_some (get k seen) =
        λ k. contains-sorted_set k (keys seen) ∙ contains-keys k seen in
      let named : (k : String)
          → (is_some (get k seen) ≡ true) ↔ (times_of parse_instant k calls ≢ []) =
        λ k.
          subst (λ o. (is_some o ≡ true) ↔ (times_of parse_instant k calls ≢ []))
            (sym (observe-summary parse_instant k calls))
            (is_some-summary (times_of parse_instant k calls)) in
      (
        λ h k called. h k (is_seen k ∙ (named k).1 called) ((named k).1 called),
        λ h k inside found. h k ((named k).0 found),
      )

  all_findings-IsWithin :
      (budget : Budget) (calls : List Call) (declared : Option (List String))
      → All (λ l. is_some (parse_window l.window) ≡ true) budget.limits
      → (findings : List Finding) × (all_findings isoformat parse_instant budget calls declared
          ≡ some findings)
        × ((has_error findings ≡ false) ↔ IsWithin budget calls declared)
  unfolding all_findings
  all_findings-IsWithin budget calls declared windows =
      let seen = observe parse_instant calls in
      let limited = map (λ l. l.operation_key) budget.limits in
      let (found, same, quiet) =
        limits_findings_lem isoformat parse_instant calls budget.limits windows in
      let first = declared_findings declared budget.limits in
      let last = unbudgeted_findings budget.deny_by_default limited seen (sorted_set (keys seen)) in
      let e = any-append is_error first (found ++ last) in
      let e' = any-append is_error found last in
      let d = declared_findings_lem declared budget.limits in
      let u = unbudgeted_lem budget.deny_by_default limited seen (sorted_set (keys seen)) in
      let c = Covered-observe calls limited in
      (
        first ++ (found ++ last),
        rw (same, all_findings) refl,
        (
          λ h. record {
            known = d.0 (ground (arith, h, e));
            kept = quiet.0 (ground (arith, h, e, e'));
            covered = λ deny. c.0 (u.0 (ground (arith, h, e, e')) deny);
          },
          λ w.
              ground
                (arith, d.1 w.known, quiet.1 w.kept, u.1 (λ deny. c.1 (w.covered deny)), e, e'),
        ),
      )

  -- If the window of every limit can be read, and the dated calls of an operation with a limit above
  -- zero all have a zone or all have none, then the evaluation gives findings, and none of
  -- them is an error just when the contract declares the operation of every limit, if its operations
  -- are given; the calls keep to every limit: no call where it is zero, and else no more dated calls
  -- than it allows in any window of its length, wherever that starts; and, if the budget denies
  -- by default, every operation that is called has a limit.
  pub evaluate-IsWithin :
      (zoned : String → Bool) (budget : Budget) (calls : List Call)
      (declared : Option (List String))
      → All (λ l. is_some (parse_window l.window) ≡ true) budget.limits
      → any (is_mixed isoformat parse_instant zoned calls) budget.limits ≡ false
      → (findings : List Finding) × (evaluate isoformat parse_instant zoned budget calls declared
          ≡ some findings)
        × ((has_error findings ≡ false) ↔ IsWithin budget calls declared)
  unfolding evaluate
  evaluate-IsWithin zoned budget calls declared windows sortable =
      let (findings, same, exact) = all_findings-IsWithin budget calls declared windows in
      (findings, rw (sortable, evaluate) same, exact)
