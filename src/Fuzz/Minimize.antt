-- ===== src/Fuzz/Minimize.antt =====
-- `minimize_case` and `minimize_failures` of apiverity/fuzz/minimize.py. The server under test and the
-- check of its response are one function: for the number of requests sent so far and a body, the
-- status and the violations, or nothing where httpx raises HTTPError. Fields of a case that are passed on
-- to the request, and the curl line of a result, are left out.
pub mod Ends
pub mod Minimal
pub mod Budget
use api_verity_lab.Common.{
  ℕ, zero, suc, ◌+◌, ◌-◌, String, ◌<>◌, Bool, true, false, not, ◌&&◌, Option, none, some, List, [],
  ◌∷◌, ◌==◌, nat_ord, text_ord, get, put_all, dict_of, keys, contains, sorted_set, length, ltb, map,
  if◌then◌else◌,
}
use mathlib.Core.Option
use api_verity_lab.Model.Value.{Value}
use api_verity_lab.Model.Schema.{SchemaNode, facts}
use api_verity_lab.Model.Operation.{Operation, key}

-- a body that is a dict
abbrev pub Body : Type 0
Body = List (String × Value)

-- a response as the check sees it: its status, and the violations
abbrev pub Probe : Type 0
Probe = Option (ℕ × List String)

-- what a server answers, by the number of requests before
abbrev pub Server : Type 0
Server = ℕ → Body → Probe

-- {k: v for k, v in body.items() if k != field}
unfoldable pub without : String → Body → Body
without field [] = []
without field ((k, v) ∷ rest) =
    let others = without field rest in if k == field then others else (k, v) ∷ others

-- bool(violations)
abbrev pub fails : Probe → Bool
fails none = false
fails (some (status, [])) = false
fails (some (status, v ∷ rest)) = true

module _ (server : Server) (required : List String) where
  -- The loop over the fields: the requests sent so far, and the candidate that fails still, if there
  -- is one.
  unfoldable pub try_fields : List String → Body → ℕ → ℕ × Option Body
  try_fields [] body sent = (sent, none)
  try_fields (field ∷ rest) body sent = elim (contains field required) [
    | true ↦ try_fields rest body sent
    | false ↦ elim (fails (server sent (without field body))) [
      | true ↦ (sent + 1, some (without field body))
      | false ↦ try_fields rest body (sent + 1)
    ]
  ]

  -- The outer loop; `none` means that the fuel ran out.
  unfoldable pub shrink : ℕ → Body → ℕ → Option (ℕ × Body)
  shrink zero body sent = none
  shrink (suc fuel) body sent =
      let (sent', found) = try_fields (sorted_set (keys body)) body sent in
      elim found [ none ↦ some (sent', body) | some candidate ↦ shrink fuel candidate sent' ]

-- the body of a case: None, something that is no dict, or a dict
pub data CaseBody : Type 0 where
  missing : CaseBody
  opaque : Value → CaseBody
  fields : Body → CaseBody

pub record TestCase : Type 0 where
  pub id : String
  pub operation_key : String
  pub kind : String
  pub description : String
  pub body : CaseBody

pub record TestResult : Type 0 where
  pub case_id : String
  pub operation_key : String
  pub kind : String
  pub description : String
  pub status : String
  pub actual_status : Option ℕ
  pub violations : List String
  pub minimized : Bool

-- set(first.required) of the first content schema, if there is one
first_required : List (String × SchemaNode) → List String
first_required [] = []
first_required ((media, schema) ∷ rest) = (facts schema).required

unfoldable pub required_fields : Operation → List String
unfolding first_required
required_fields op = elim op.request_body [ none ↦ [] | some body ↦ first_required body.content ]

unfoldable pub not_minimizable : TestCase → TestResult
not_minimizable case = record {
  case_id = case.id;
  operation_key = case.operation_key;
  kind = case.kind;
  description = case.description;
  status = "fail";
  actual_status = none;
  violations = "not minimizable (no object body)" ∷ [];
  minimized = false;
}

-- the request with the body that is left, and its result; `error` is str(exc)
unfoldable pub reported : TestCase → String → Probe → TestResult
reported case error none = record {
  case_id = case.id;
  operation_key = case.operation_key;
  kind = case.kind;
  description = case.description;
  status = "error";
  actual_status = none;
  violations = ("request failed: " <> error) ∷ [];
  minimized = true;
}
reported case error (some (status, violations)) = record {
  case_id = case.id;
  operation_key = case.operation_key;
  kind = case.kind;
  description = case.description;
  status = if fails (some (status, violations)) then "fail" else "pass";
  actual_status = some status;
  violations = violations;
  minimized = true;
}

-- The server answers by the case whose method, path, query and headers are sent.
module _ (server : TestCase → Server) (error : String) where
  -- The loop has a round for each field, and one that finds nothing to drop.
  unfoldable pub minimize_body : TestCase → List String → CaseBody → Option TestResult
  minimize_body case required missing = some (not_minimizable case)
  minimize_body case required (opaque value) = some (not_minimizable case)
  minimize_body case required (fields body) =
      elim (shrink (server case) required (suc (length body)) body 0) [
        | none ↦ none
        | some (sent, left) ↦ some (reported case error (server case sent left))
      ]

  unfoldable pub minimize_case : Option Operation → TestCase → Option TestResult
  unfolding minimize_body
  minimize_case none case = some (not_minimizable case)
  minimize_case (some op) case = minimize_body case (required_fields op) case.body

  -- isinstance(case.body, dict), for the case with the id of the result
  unfoldable pub has_fields : Option TestCase → Bool
  has_fields none = false
  has_fields (some case) = elim case.body [
    | missing ↦ false
    | opaque value ↦ false
    | fields body ↦ true
  ]

  unfoldable pub minimize_one :
      List (String × Operation) → Option TestCase → TestResult → Option TestResult
  minimize_one ops none result = some result
  minimize_one ops (some case) result = minimize_case (get result.operation_key ops) case

  -- The loop, with the budget; `none` would mean that some fuel ran out.
  unfoldable pub minimize_all :
      List (String × Operation)
      → List (String × TestCase)
      → ℕ
      → List TestResult
      → Option (List TestResult)
  minimize_all ops cases budget [] = some []
  minimize_all ops cases budget (result ∷ rest) =
      let case = get result.case_id cases in
      elim (ltb 0 budget && result.status == "fail" && has_fields case) [
        | true ↦ elim (minimize_one ops case result) [
          | none ↦ none
          | some small ↦ Option.map (λ out. small ∷ out) (minimize_all ops cases (budget - 1) rest)
        ]
        | false ↦ Option.map (λ out. result ∷ out) (minimize_all ops cases budget rest)
      ]

  unfoldable pub minimize_failures :
      List Operation → List TestResult → List TestCase → ℕ → Option (List TestResult)
  minimize_failures operations results cases max_minimize =
      minimize_all (dict_of (map (λ op. (key op, op)) operations))
        (dict_of (map (λ c. (c.id, c)) cases)) max_minimize results
