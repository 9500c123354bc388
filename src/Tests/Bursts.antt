-- ===== src/Tests/Bursts.antt =====
-- apiverity/rules/budget.py on a few calls and on a burst that straddles a boundary.
use api_verity_lab.Common.{
  Option, none, put, String, text_ord, nat_ord, get, ◌==◌, if◌then◌else◌, ℕ, some, List, [], ◌∷◌,
  ◌≡◌, refl, sorted, insert_again,
}
use api_verity_lab.Rules.Budget.{drop_old, advance, advance_all, busiest, busiest_window}
use api_verity_lab.Common.Text.{is_empty}
use api_verity_lab.Rules.Budget.Observed.{
  Call, observe, observe_call, observe_all, instant_of, counted, or_unseen,
}
use api_verity_lab.Rules.Budget.Observed.Counted.{summary, times_of, observe-summary}
use api_verity_lab.Common.{any, contains, is_some, All, ◌↔◌, true, false}
use api_verity_lab.Rules.Budget.Evaluate.{
  Budget, parse_window, parse_number, parse_unit, all_blank, is_mixed, zones_of, evaluate,
}
use api_verity_lab.Rules.Budget.Evaluate.Operations.{has_error}
use api_verity_lab.Rules.Budget.Evaluate.Within.{IsWithin, evaluate-IsWithin}
use api_verity_lab.Model.Finding.{Finding}
use api_verity_lab.Rules.Budget.Peak.{IsPeak, busiest_window-IsPeak}

abbrev burst : List ℕ
burst = 9 ∷ 25 ∷ 11 ∷ 8 ∷ 12 ∷ []

burst_found : busiest_window burst 3 ≡ (3, some 8)
unfolding busiest_window busiest advance_all advance drop_old sorted insert_again
burst_found = refl

busiest_window-IsPeak_example : IsPeak 3 burst (busiest_window burst 3)
busiest_window-IsPeak_example = busiest_window-IsPeak 3 burst

abbrev midnight : String → Option ℕ
midnight raw = if raw == "2026-01-01T00:00:00" then some 0 else none

abbrev calls : List Call
calls =
    record { operation_key = "tool search"; at = some "2026-01-01T00:00:00" }
    ∷ record { operation_key = ""; at = none }
    ∷ record { operation_key = "tool search"; at = some "yesterday" }
    ∷ []

calls_seen :
    get "tool search" (observe midnight calls)
    ≡ some (record { total = 2; instants = 0 ∷ []; undated = 1 })
unfolding get observe observe_all observe_call instant_of counted or_unseen put is_empty
calls_seen = refl

observe-summary_example :
    get "tool search" (observe midnight calls) ≡ summary (times_of midnight "tool search" calls)
observe-summary_example = observe-summary midnight "tool search" calls

quarter_hour : parse_window " 15 m" ≡ some 900000000
unfolding parse_window parse_number parse_unit all_blank
quarter_hour = refl

weeks_refused : parse_window "2w" ≡ none
unfolding parse_window parse_number parse_unit all_blank
weeks_refused = refl

abbrev budget : Budget
budget = record {
  deny_by_default = true;
  limits = record { operation_key = "tool search"; max_calls = 1; window = "1h" } ∷ [];
}

windows_read : All (λ l. is_some (parse_window l.window) ≡ true) budget.limits
unfolding parse_window parse_number parse_unit all_blank
windows_read = (refl, tt)

sortable : any (is_mixed (λ t. "2026") midnight (λ text. false) calls) budget.limits ≡ false
unfolding any is_mixed zones_of instant_of is_empty contains
sortable = refl

-- A time with a zone and one without make the evaluation raise.
abbrev zone_calls : List Call
zone_calls = record { operation_key = "tool search"; at = some "Z" } ∷ calls

zones_refused :
    evaluate (λ t. "2026") (λ text. some 0) (λ text. text == "Z") budget zone_calls none ≡ none
unfolding evaluate any is_mixed zones_of instant_of is_empty contains
zones_refused = refl

evaluate-IsWithin_example :
    (findings : List Finding) × (evaluate
        (λ t. "2026")
        midnight
        (λ text. false)
        budget
        calls
        (some ("tool search" ∷ []))
      ≡ some findings)
    × ((has_error findings ≡ false)
        ↔ IsWithin (λ t. "2026") midnight budget calls (some ("tool search" ∷ [])))
evaluate-IsWithin_example =
    evaluate-IsWithin (λ t. "2026") midnight (λ text. false) budget calls
      (some ("tool search" ∷ [])) windows_read sortable
