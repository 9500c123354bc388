-- ===== src/Rules/Budget/Evaluate/Operations.antt =====
-- The operations of a budget and of the calls in `evaluate` (apiverity/rules/budget.py).
use api_verity_lab.Common.{
  String, Bool, true, false, Option, none, some, List, [], ◌∷◌, ◌==◌, ◌≡◌, ◌↔◌, refl, sym, ap,
  subst, arith, nat_ord, text_ord, ==_iff, ==_refl, contains, get, any, is_some, All, Bool-cases,
  Option-cases, inl, inr,
}
use api_verity_lab.Model.Finding.{error, is_severity, Finding}
use api_verity_lab.Rules.Budget.Observed.{Observation}
use api_verity_lab.Rules.Budget.Evaluate.{
  Limit, unknown_finding, unknown_findings, declared_findings, unbudgeted_finding,
  unbudgeted_findings,
}

abbrev pub is_error : Finding → Bool
is_error f = is_severity f.severity error

abbrev pub has_error : List Finding → Bool
has_error = any is_error

-- the contract declares the operations of the limits, where they are known
abbrev pub AllDeclared : Option (List String) → List Limit → Type 0
AllDeclared none limits = Unit
AllDeclared (some declared) limits = All (λ l. contains l.operation_key declared ≡ true) limits

pub unknown_findings_lem :
    (declared : List String) (limits : List Limit)
    → (has_error (unknown_findings declared limits) ≡ false)
      ↔ All (λ l. contains l.operation_key declared ≡ true) limits
unfolding unknown_findings unknown_finding any
unknown_findings_lem declared [] = (λ h. tt, λ h. refl)
unknown_findings_lem declared (l ∷ rest) =
    let ih = unknown_findings_lem declared rest in
    elim (Bool-cases (contains l.operation_key declared)) [
      | inl known ↦ rw known (λ h. (refl, ih.0 h), λ h. ih.1 h.1)
      | inr other ↦ rw other (λ h. absurd (cc h), λ h. absurd (cc (h.0)))
    ]

pub declared_findings_lem :
    (declared : Option (List String)) (limits : List Limit)
    → (has_error (declared_findings declared limits) ≡ false) ↔ AllDeclared declared limits
unfolding declared_findings any
declared_findings_lem none limits = (λ h. tt, λ h. refl)
declared_findings_lem (some declared) limits = unknown_findings_lem declared limits

-- every operation of the first list that was seen is in the second
unfoldable pub Covered : List String → List (String × Observation) → List String → Type 0
Covered ks seen budgeted =
    (k : String) → contains k ks ≡ true → is_some (get k seen) ≡ true → contains k budgeted ≡ true

pub Covered-cons :
    (key : String) (ks : List String) (seen : List (String × Observation)) (budgeted : List String)
    → ((is_some (get key seen) ≡ true → contains key budgeted ≡ true) × Covered ks seen budgeted)
      ↔ Covered (key ∷ ks) seen budgeted
unfolding Covered contains
Covered-cons key ks seen budgeted = (
  λ h k inside found. elim (Bool-cases (k == key)) [
    | inl same ↦
        let e = (==_iff k key).0 same in
        subst (λ j. contains j budgeted ≡ true) (sym e)
          (h.0 (subst (λ j. is_some (get j seen) ≡ true) e found))
    | inr other ↦ h.1 k (ground (arith, inside, other)) found
  ],
  λ h. (h key (ground (arith, ==_refl key)), λ k inside. h k (ground (arith, inside))),
)

pub free_quiet :
    (deny : Bool) (budgeted : List String) (seen : List (String × Observation)) (key : String)
    (ks : List String) (r : Observation)
    → get key seen ≡ some r
    → contains key budgeted ≡ false
    → (deny ≡ true
        → (is_some (get key seen) ≡ true → contains key budgeted ≡ true) × Covered ks seen budgeted)
    → ((deny ≡ true → Covered ks seen budgeted)
        → has_error (unbudgeted_findings deny budgeted seen ks) ≡ false)
    → has_error (unbudgeted_finding deny key r.total ∷ unbudgeted_findings deny budgeted seen ks)
      ≡ false
unfolding unbudgeted_finding any
free_quiet true budgeted seen key ks r e free h quiet =
    absurd (ground (arith, (h refl).0 (ap is_some e), free))
free_quiet false budgeted seen key ks r e free h quiet = quiet (λ d. absurd (cc d))

pub unbudgeted_lem :
    (deny : Bool) (budgeted : List String) (seen : List (String × Observation)) (ks : List String)
    → (has_error (unbudgeted_findings deny budgeted seen ks) ≡ false)
      ↔ (deny ≡ true → Covered ks seen budgeted)
unfolding unbudgeted_findings unbudgeted_finding any Covered contains
unbudgeted_lem deny budgeted seen [] = (λ h d k inside. absurd (cc inside), λ h. refl)
unbudgeted_lem deny budgeted seen (key ∷ ks) =
    let ih = unbudgeted_lem deny budgeted seen ks in
    let cons = Covered-cons key ks seen budgeted in
    elim (Option-cases (get key seen)) [
      | inl unseen ↦
          rw (unseen, unbudgeted_findings)
            (
              λ h d. cons.0 (λ e. absurd (ground (arith, e, unseen)), ih.0 h d),
              λ h. ih.1 (λ d. (cons.1 (h d)).1),
            )
      | inr (r, e) ↦ elim (Bool-cases (contains key budgeted)) [
        | inl limited ↦
            rw (e, unbudgeted_findings)
              (rw limited
                (λ h d. cons.0 (λ z. limited, ih.0 h d), λ h. ih.1 (λ d. (cons.1 (h d)).1)))
        | inr free ↦
            rw (e, unbudgeted_findings)
              (rw free (
                λ h d. absurd (ground (arith, h, d)),
                λ h. free_quiet deny budgeted seen key ks r e free (λ d. cons.1 (h d)) ih.1,
              ))
      ]
    ]
