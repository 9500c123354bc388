-- ===== src/Rules/Budget/Observed/Counted.antt =====
-- What `observe` (apiverity/rules/budget.py) holds of each operation.
use mathlib.Core.List.{append-nil}
use api_verity_lab.Common.{
  ℕ, ◌+◌, String, Option, none, some, List, [], ◌∷◌, ◌++◌, ◌≡◌, refl, ◌∙◌, arith, text_ord, get,
  get-put, length, if◌then◌else◌, ◌==◌, ==_iff, not, ◌&&◌, append_one,
}
use api_verity_lab.Common.Text.{is_empty}
use api_verity_lab.Rules.Budget.Observed.{
  Observation, Call, unseen, or_unseen, instant_of, counted, observe_call, observe_all, observe,
}

abbrev pub instants_in : List (Option ℕ) → List ℕ
instants_in [] = []
instants_in (none ∷ ts) = instants_in ts
instants_in (some t ∷ ts) = t ∷ instants_in ts

abbrev undated_in : List (Option ℕ) → ℕ
undated_in [] = 0
undated_in (none ∷ ts) = 1 + undated_in ts
undated_in (some t ∷ ts) = undated_in ts

-- the record after the instants of some further calls
unfoldable after : Option Observation → List (Option ℕ) → Option Observation
after seen [] = seen
after seen (t ∷ ts) = after (some (counted t (or_unseen seen))) ts

after_lem :
    (r : Observation) (ts : List (Option ℕ))
    → after (some r) ts
      ≡ some (record {
        total = r.total + length ts;
        instants = r.instants ++ instants_in ts;
        undated = r.undated + undated_in ts;
      })
unfolding after counted or_unseen
after_lem r [] = ground (arith, append-nil r.instants)
after_lem r (none ∷ ts) = after_lem (counted none r) ts ∙ ground arith
after_lem r (some t ∷ ts) =
    after_lem (counted (some t) r) ts ∙ ground (arith, append_one r.instants t (instants_in ts))

-- what the dict holds for an operation with these calls
unfoldable pub summary : List (Option ℕ) → Option Observation
summary [] = none
summary (t ∷ ts) = some (record {
  total = length (t ∷ ts);
  instants = instants_in (t ∷ ts);
  undated = undated_in (t ∷ ts);
})

after-summary : (ts : List (Option ℕ)) → after none ts ≡ summary ts
unfolding after summary counted or_unseen
after-summary [] = refl
after-summary (none ∷ ts) = after_lem (counted none unseen) ts ∙ ground arith
after-summary (some t ∷ ts) = after_lem (counted (some t) unseen) ts ∙ ground arith

module _ (parse_instant : String → Option ℕ) (key : String) where
  -- the instants of the calls of `key`, in order
  unfoldable pub times_of : List Call → List (Option ℕ)
  times_of [] = []
  times_of (call ∷ rest) =
      if not (is_empty call.operation_key) && (call.operation_key == key)
      then instant_of parse_instant call.at ∷ times_of rest
      else times_of rest

  observe_call-get :
      (call : Call) (seen : List (String × Observation))
      → get key (observe_call parse_instant call seen) ≡ (
          if not (is_empty call.operation_key) && (call.operation_key == key)
          then some (counted (instant_of parse_instant call.at) (or_unseen (get key seen)))
          else get key seen)
  unfolding observe_call
  observe_call-get call seen = ground (
    arith,
    get-put key call.operation_key
        (counted (instant_of parse_instant call.at) (or_unseen (get call.operation_key seen))) seen,
    ==_iff call.operation_key key,
  )

  observe_all-after :
      (calls : List Call) (seen : List (String × Observation))
      → get key (observe_all parse_instant calls seen) ≡ after (get key seen) (times_of calls)
  unfolding observe_all times_of after
  observe_all-after [] seen = refl
  observe_all-after (call ∷ rest) seen = ground (
    arith,
    observe_all-after rest (observe_call parse_instant call seen),
    observe_call-get call seen,
  )

  -- The dict holds nothing for an operation that no call names, and for any other the
  -- number of its calls, the instants that could be read in the order of the calls, and the number
  -- of the calls without one.
  pub observe-summary :
      (calls : List Call) → get key (observe parse_instant calls) ≡ summary (times_of calls)
  unfolding observe get
  observe-summary calls = observe_all-after calls [] ∙ after-summary (times_of calls)
