-- ===== src/Tests/Workflows.antt =====
-- apiverity/stateful/graph.py on small workflows and graphs.
use api_verity_lab.Common.{
  String, Bool, true, some, List, [], ◌∷◌, ◌≡◌, ◌↔◌, refl, text_ord, get, put, put_all,
}
use api_verity_lab.Common.Text.{is_empty}
use api_verity_lab.Model.Value.{null, end}
use api_verity_lab.Stateful.Graph.{WorkflowRequest, Workflow, validate_workflow_graph, ok}
use api_verity_lab.Stateful.Variables.{scan, variables_in}
use api_verity_lab.Stateful.Graph.Sound.{IsSound, validate_workflow_graph-IsSound}
use api_verity_lab.Stateful.Cycle.{
  Edges, has_cycle, visit_steps, visit, visit_all, blackened, all_white, color_of, color_in,
  next_of,
}
use api_verity_lab.Stateful.Cycle.Walk.{IsCyclic}
use api_verity_lab.Stateful.Cycle.Cyclic.{has_cycle-IsCyclic}

two_names : variables_in "/a{/{order_id}/{9}/{x1}" ≡ "order_id" ∷ "x1" ∷ []
unfolding variables_in scan is_empty
two_names = refl

abbrev call : String → String → WorkflowRequest
call method path = record { method = method; path = path; body = null; headers = end; query = end }

abbrev crud : Workflow
crud = record {
  inputs = "token" ∷ [];
  steps =
      record { name = "create"; request = call "post" "/orders"; extract = ("id", "$.id") ∷ [] }
      ∷ record { name = "read"; request = call "GET" "/orders/{id}"; extract = [] }
      ∷ [];
  cleanup = record { name = "drop"; request = call "DELETE" "/orders/{id}"; extract = [] } ∷ [];
}

validate_workflow_graph-IsSound_example : (ok (validate_workflow_graph crud) ≡ true) ↔ IsSound crud
validate_workflow_graph-IsSound_example = validate_workflow_graph-IsSound crud

abbrev steps : List String
steps = "a" ∷ "b" ∷ "c" ∷ []

abbrev edges : Edges
edges = ("a", "b" ∷ "x" ∷ []) ∷ ("b", "c" ∷ []) ∷ ("c", "b" ∷ []) ∷ []

cycle_found : has_cycle steps edges ≡ some true
unfolding has_cycle visit_steps visit visit_all blackened all_white color_of color_in next_of get
    put put_all
cycle_found = refl

has_cycle-IsCyclic_example :
    (b : Bool) × (has_cycle steps edges ≡ some b) × ((b ≡ true) ↔ IsCyclic steps edges)
has_cycle-IsCyclic_example = has_cycle-IsCyclic steps edges
