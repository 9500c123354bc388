-- ===== src/Rules/Budget/Observed.antt =====
-- `observe` of apiverity/rules/budget.py: the calls of a run, grouped by operation.
pub mod Counted
use api_verity_lab.Common.{
  ℕ, ◌+◌, String, Option, none, some, List, [], ◌∷◌, ◌++◌, text_ord, get, put, if◌then◌else◌,
}
use api_verity_lab.Common.Text.{is_empty}

pub record Observation : Type 0 where
  pub total : ℕ
  pub instants : List ℕ
  pub undated : ℕ

-- An entry of `calls`: `operation_key` is "" where it is missing, and `at` is nothing unless it
-- holds a string.
pub record Call : Type 0 where
  pub operation_key : String
  pub at : Option String

-- Observation()
abbrev pub unseen : Observation
unseen = record { total = 0; instants = []; undated = 0 }

-- seen.setdefault(key, Observation()), by what `seen` has at `key`
unfoldable pub or_unseen : Option Observation → Observation
or_unseen none = unseen
or_unseen (some r) = r

-- the changes to the record of the call's operation
unfoldable pub counted : Option ℕ → Observation → Observation
counted none r = record { total = r.total + 1; instants = r.instants; undated = r.undated + 1 }
counted (some t) r = record {
  total = r.total + 1;
  instants = r.instants ++ t ∷ [];
  undated = r.undated;
}

module _ (parse_instant : String → Option ℕ) where
  -- _parse_instant(raw) if isinstance(raw, str) and raw else None
  unfoldable pub instant_of : Option String → Option ℕ
  instant_of none = none
  instant_of (some raw) = if is_empty raw then none else parse_instant raw

  -- the body of the loop
  unfoldable pub observe_call : Call → List (String × Observation) → List (String × Observation)
  observe_call call seen =
      if is_empty call.operation_key
      then seen
      else put call.operation_key
          (counted (instant_of call.at) (or_unseen (get call.operation_key seen))) seen

  unfoldable pub observe_all : List Call → List (String × Observation) → List (String × Observation)
  observe_all [] seen = seen
  observe_all (call ∷ rest) seen = observe_all rest (observe_call call seen)

  unfoldable pub observe : List Call → List (String × Observation)
  observe calls = observe_all calls []
