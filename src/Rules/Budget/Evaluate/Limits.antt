-- ===== src/Rules/Budget/Evaluate/Limits.antt =====
-- The loop over the limits of `evaluate` (apiverity/rules/budget.py).
use api_verity_lab.Common.{
  ℕ, ◌≤◌, ◌<◌, String, true, false, Option, none, some, List, [], ◌∷◌, ◌++◌, ◌≡◌, ◌↔◌, refl, subst,
  arith, nat_ord, text_ord, ==_iff, sorted, ltb, any, any-append, keep, is_some, All, Bool-cases,
  Option-cases, inl, inr,
}
use api_verity_lab.Model.Finding.{Finding}
use api_verity_lab.Rules.Budget.{busiest_window, busiest}
use api_verity_lab.Rules.Budget.Pointers.{calls_inside}
use api_verity_lab.Rules.Budget.Peak.{IsReached, busiest_window-IsPeak}
use api_verity_lab.Rules.Budget.Observed.{Observation, Call, observe}
use api_verity_lab.Rules.Budget.Observed.Counted.{instants_in, summary, times_of, observe-summary}
use api_verity_lab.Rules.Budget.Evaluate.{
  Limit, forbidden, parse_window, unused_finding, forbidden_finding, undated_findings,
  exceeded_findings, limit_findings, limits_findings,
}
use api_verity_lab.Rules.Budget.Evaluate.Operations.{is_error, has_error}

-- The calls with these instants keep to the limit: none where it is zero, and else no more in any
-- window of its length.
abbrev pub Keeps : Limit → List (Option ℕ) → Type 0
Keeps limit times =
    (limit.max_calls ≡ 0 → times ≡ [])
    × ((window : ℕ)
        → parse_window limit.window ≡ some window
        → (t : ℕ) → calls_inside window t (instants_in times) ≤ limit.max_calls)

pub undated-quiet : (key : String) (r : Observation) → has_error (undated_findings key r) ≡ false
unfolding undated_findings any
undated-quiet key r = ground arith

module _ (isoformat : ℕ → String) (parse_instant : String → Option ℕ) where
  pub exceeded_lem :
      (limit : Limit) (peak : ℕ × Option ℕ)
      → has_error (exceeded_findings isoformat parse_instant limit peak)
        ≡ ltb limit.max_calls peak.0
  unfolding exceeded_findings any
  exceeded_lem limit (n, at) = ground arith

  pub peak_le :
      (max window : ℕ) (instants : List ℕ) (n : ℕ) (at : Option ℕ)
      → IsReached window instants n at
      → (instants ≡ [] → n ≡ 0)
      → ((t : ℕ) → calls_inside window t instants ≤ max)
      → n ≤ max
  unfolding IsReached
  peak_le max window instants n none reached empty h = omega (arith, empty reached)
  peak_le max window instants n (some t) reached empty h = omega (arith, reached, h t)

  pub peak-nil :
      (instants : List ℕ) (window : ℕ) → instants ≡ [] → (busiest_window instants window).0 ≡ 0
  unfolding busiest_window busiest sorted
  peak-nil instants window h = rw h refl

  pub peak_lem :
      (limit : Limit) (window : ℕ) (instants : List ℕ)
      → (ltb limit.max_calls (busiest_window instants window).0 ≡ false)
        ↔ ((t : ℕ) → calls_inside window t instants ≤ limit.max_calls)
  peak_lem limit window instants =
      let (bound, reached) = busiest_window-IsPeak window instants in
      (
        λ h t. ground (arith, h, bound t),
        λ h.
            let le =
              peak_le limit.max_calls window instants (busiest_window instants window).0
                (busiest_window instants window).1 reached (peak-nil instants window) h in
            ground (arith, le),
      )

  -- what one limit gives, where its window can be read
  abbrev pub Judged : Limit → List (Option ℕ) → Option (List Finding) → Type 0
  Judged limit times out =
      (found : List Finding) × (out ≡ some found) × ((has_error found ≡ false) ↔ Keeps limit times)

  pub limit_findings-forbidden :
      (limit : Limit) (r : Observation)
      → 0 < r.total
      → forbidden limit ≡ true
      → limit_findings isoformat parse_instant limit (some r)
        ≡ some (forbidden_finding limit.operation_key r.total ∷ [])
  unfolding limit_findings
  limit_findings-forbidden limit r called zero_calls = ground (arith, called, zero_calls)

  pub limit_findings-counted :
      (limit : Limit) (window : ℕ) (r : Observation)
      → 0 < r.total
      → forbidden limit ≡ false
      → parse_window limit.window ≡ some window
      → limit_findings isoformat parse_instant limit (some r)
        ≡ some (
            exceeded_findings isoformat parse_instant limit (busiest_window r.instants window)
            ++ undated_findings limit.operation_key r)
  unfolding limit_findings
  limit_findings-counted limit window r called positive h = ground (arith, called, positive, h)

  pub counted_quiet :
      (limit : Limit) (window : ℕ) (r : Observation)
      → (has_error (
            exceeded_findings isoformat parse_instant limit (busiest_window r.instants window)
            ++ undated_findings limit.operation_key r)
          ≡ false)
        ↔ ((t : ℕ) → calls_inside window t r.instants ≤ limit.max_calls)
  counted_quiet limit window r =
      let p = peak_lem limit window r.instants in
      let e =
        any-append is_error
          (exceeded_findings isoformat parse_instant limit (busiest_window r.instants window))
          (undated_findings limit.operation_key r) in
      let x = exceeded_lem limit (busiest_window r.instants window) in
      let u = undated-quiet limit.operation_key r in
      (λ h. p.0 (ground (arith, h, e, x)), λ h. ground (arith, p.1 h, e, x, u))

  pub limit_findings-Judged :
      (limit : Limit) (window : ℕ) (times : List (Option ℕ))
      → parse_window limit.window ≡ some window
      → Judged limit times (limit_findings isoformat parse_instant limit (summary times))
  unfolding limit_findings summary unused_finding forbidden_finding any calls_inside keep
  limit_findings-Judged limit window [] h =
      (_, refl, (λ e. (λ z. refl, λ w p t. omega arith), λ k. refl))
  limit_findings-Judged limit window (t ∷ ts) h = elim (Bool-cases (forbidden limit)) [
    | inl zero_calls ↦ (
      _,
      limit_findings-forbidden limit _ (omega arith) zero_calls,
      (λ e. absurd (cc e), λ k. absurd (cc (k.0 ((==_iff limit.max_calls 0).0 zero_calls)))),
    )
    | inr positive ↦
        let quiet = counted_quiet limit window _ in
        (
          _,
          limit_findings-counted limit window _ (omega arith) positive h,
          (
            λ e. (
              λ z. absurd (ground (arith, z, positive)),
              λ w p.
                  subst (λ v. (u : ℕ) → calls_inside v u (instants_in (t ∷ ts)) ≤ limit.max_calls)
                    (ground (arith, h, p)) (quiet.0 e),
            ),
            λ k. quiet.1 (k.1 window h),
          ),
        )
  ]

  pub limits_findings_lem :
      (calls : List Call) (limits : List Limit)
      → All (λ l. is_some (parse_window l.window) ≡ true) limits
      → (found : List Finding) × (limits_findings isoformat parse_instant
            (observe parse_instant calls)
            limits
          ≡ some found)
        × ((has_error found ≡ false)
            ↔ All (λ l. Keeps l (times_of parse_instant l.operation_key calls)) limits)
  unfolding limits_findings any
  limits_findings_lem calls [] h = ([], refl, (λ e. tt, λ k. refl))
  limits_findings_lem calls (l ∷ rest) h = elim (Option-cases (parse_window l.window)) [
    | inl unread ↦ absurd (ground (arith, h.0, unread))
    | inr (window, e) ↦
        let (found, same, quiet) =
          limit_findings-Judged l window (times_of parse_instant l.operation_key calls) e in
        let (others, same', quiet') = limits_findings_lem calls rest h.1 in
        let both = any-append is_error found others in
        (
          found ++ others,
          rw (observe-summary parse_instant l.operation_key calls, limits_findings)
              (rw (same, limits_findings) (rw (same', limits_findings) refl)),
          (
            λ z. (quiet.0 (ground (arith, z, both)), quiet'.0 (ground (arith, z, both))),
            λ k. ground (arith, quiet.1 k.0, quiet'.1 k.1, both),
          ),
        )
  ]
