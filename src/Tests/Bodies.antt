-- ===== src/Tests/Bodies.antt =====
-- apiverity/fuzz/minimize.py on a server that refuses a body with one field.
use api_verity_lab.Common.{
  ℕ, ◌*◌, ◌≤◌, false, some, List, [], ◌∷◌, ◌≡◌, get, map, dict_of, is_none, if◌then◌else◌, text_ord,
}
use api_verity_lab.Model.Operation.{key}
use api_verity_lab.Model.Value.{Value}
use api_verity_lab.Tests.Data.{create_pet}
use api_verity_lab.Fuzz.Minimize.{
  Body, Probe, Server, TestCase, TestResult, CaseBody, shrink, minimize_failures,
}
use api_verity_lab.Fuzz.Minimize.Minimal.{IsMinimal, shrink-IsMinimal}
use api_verity_lab.Fuzz.Minimize.Budget.{Replaced, minimize_failures-Replaced}

-- a violation where a tag is sent
abbrev answer : Body → Probe
answer body = if is_none (get "tag" body) then some (201, []) else some (500, "status 500" ∷ [])

abbrev server : Server
server sent body = answer body

abbrev body : Body
body = ("name", Value.text "a") ∷ ("tag", Value.text "b") ∷ ("age", Value.text "c") ∷ []

shrink-IsMinimal_example :
    ((n : ℕ) × (left : Body) × (shrink server ("name" ∷ []) 4 body 0 ≡ some (n, left))
      × (2 * n ≤ 12))
    × ((n : ℕ) × (left : Body) × (shrink (λ sent b. answer b) ("name" ∷ []) 4 body 0
          ≡ some (n, left))
        × IsMinimal answer ("name" ∷ []) body left)
shrink-IsMinimal_example = shrink-IsMinimal server answer ("name" ∷ []) body

abbrev case : TestCase
case = record {
  id = "1";
  operation_key = "POST /pets";
  kind = "negative";
  description = "";
  body = CaseBody.fields body;
}

abbrev failed : TestResult
failed = record {
  case_id = "1";
  operation_key = "POST /pets";
  kind = "negative";
  description = "";
  status = "fail";
  actual_status = some 500;
  violations = "status 500" ∷ [];
  minimized = false;
}

minimize_failures-Replaced_example :
    (out : List TestResult) × (minimize_failures
        (λ c. server)
        ""
        (create_pet ∷ [])
        (failed ∷ [])
        (case ∷ [])
        1
      ≡ some out)
    × Replaced
        (λ c. server)
        ""
        (dict_of (map (λ op. (key op, op)) (create_pet ∷ [])))
        (dict_of (map (λ c. (c.id, c)) (case ∷ [])))
        1
        (failed ∷ [])
        out
minimize_failures-Replaced_example =
    minimize_failures-Replaced (λ c. server) "" (create_pet ∷ []) (failed ∷ []) (case ∷ []) 1
