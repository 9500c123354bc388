-- ===== src/Stateful/Graph.antt =====
-- `validate_workflow_graph` of apiverity/stateful/graph.py. A set is a list with its members, in any order.
pub mod Steps
pub mod Sound
use Prim.Native.Char.{Char, code}
use api_verity_lab.Common.{
  ℕ, String, ◌<>◌, Bool, true, false, not, ◌&&◌, ◌||◌, Option, none, some, List, [], ◌∷◌, ◌++◌,
  ◌==◌, nat_ord, text_ord, contains, only_in, sorted_set, keys, get, put, put_all, keep, any, map,
  leb, if◌then◌else◌,
}
use api_verity_lab.Common.Text.{upper, is_empty}
use api_verity_lab.Model.Value.{
  Value, Values, Members, null, bool, number, text, list, dict, nil, cons, end, member,
}
use api_verity_lab.Model.Repr.{repr_value}
use api_verity_lab.Model.Finding.{Severity, error, warn, is_severity}
use api_verity_lab.Stateful.Variables.{variables_in, deep_vars, values_vars, members_vars}

pub record WorkflowRequest : Type 0 where
  pub method : String
  pub path : String
  pub body : Value
  pub headers : Members
  pub query : Members

pub record WorkflowStep : Type 0 where
  pub name : String
  pub request : WorkflowRequest
  pub extract : List (String × String)

-- the fields of a workflow that the validation reads
pub record Workflow : Type 0 where
  pub inputs : List String
  pub steps : List WorkflowStep
  pub cleanup : List WorkflowStep

pub record GraphIssue : Type 0 where
  pub rule_id : String
  pub severity : Severity
  pub message : String

-- step.request.model_dump()
unfoldable pub model_dump : WorkflowRequest → Value
model_dump r = dict (
    member "method" (text r.method) (
      member "path" (text r.path) (
        member "body" r.body
          (member "headers" (dict r.headers) (member "query" (dict r.query) end)))))

-- the variables that a step uses
unfoldable pub used_by : WorkflowStep → List String
unfolding model_dump deep_vars
used_by step = deep_vars (model_dump step.request)

abbrev texts : List String → Values
texts [] = nil
texts (s ∷ rest) = cons (text s) (texts rest)

-- repr of a list of strings
unfoldable pub repr_texts : List String → String
unfolding repr_value
repr_texts ss = repr_value (list (texts ss))

abbrev pub extracts : WorkflowStep → List String
extracts step = keys step.extract

-- _DESTRUCTIVE
abbrev pub destructive : List String
destructive = "POST" ∷ "PUT" ∷ "PATCH" ∷ "DELETE" ∷ []

abbrev pub is_destructive : WorkflowStep → Bool
is_destructive step = contains (upper step.request.method) destructive

-- the variables of the loop
pub record Pass : Type 0 where
  pub issues : List GraphIssue
  pub available : List String
  pub names : List String
  pub extracted_by : List (String × String)

unfoldable pub duplicate_issues : WorkflowStep → List String → List GraphIssue
duplicate_issues step names =
    if contains step.name names
    then record {
      rule_id = "WF-DUP-STEP";
      severity = error;
      message = "duplicate step name '" <> (step.name <> "'");
    }
      ∷ []
    else []

unfoldable pub missing_issue : WorkflowStep → List String → List GraphIssue
unfolding repr_texts
missing_issue step [] = []
missing_issue step (v ∷ missing) =
    record {
      rule_id = "WF-MISSING-VAR";
      severity = error;
      message =
          "step '" <> (step.name <> ("' uses undefined variables: " <> repr_texts (v ∷ missing)));
    }
    ∷ []

-- the body of the loop
unfoldable pub check_step : WorkflowStep → Pass → Pass
unfolding duplicate_issues missing_issue used_by repr_texts
check_step step p = record {
  issues =
      p.issues
      ++ (duplicate_issues step p.names ++ missing_issue step (only_in (used_by step) p.available));
  available = p.available ++ extracts step;
  names = step.name ∷ p.names;
  extracted_by =
      if is_destructive step
      then put_all p.extracted_by (map (λ v. (v, step.name)) (extracts step))
      else p.extracted_by;
}

unfoldable pub check_steps : List WorkflowStep → Pass → Pass
check_steps [] p = p
check_steps (step ∷ rest) p = check_steps rest (check_step step p)

-- " ".join(paths)
unfoldable pub joined : List String → String
joined [] = ""
joined (s ∷ []) = s
joined (s ∷ t ∷ rest) = s <> (" " <> joined (t ∷ rest))

abbrev is_delete : WorkflowStep → Bool
is_delete step = upper step.request.method == "DELETE"

unfoldable pub delete_vars : Workflow → List String
unfolding joined variables_in
delete_vars w = variables_in (joined (map (λ s. s.request.path) (keep is_delete w.cleanup)))

-- the variables of all paths
unfoldable pub addressed : List WorkflowStep → List String
addressed [] = []
addressed (step ∷ rest) = variables_in step.request.path ++ addressed rest

unfoldable pub cleanup_issues : List String → List (String × String) → List String → List GraphIssue
cleanup_issues deleted extracted_by [] = []
cleanup_issues deleted extracted_by (var ∷ rest) =
    let others = cleanup_issues deleted extracted_by rest in
    elim (get var extracted_by) [
      | none ↦ others
      | some creator ↦
          if contains var deleted
          then others
          else record {
            rule_id = "WF-INCOMPLETE-CLEANUP";
            severity = warn;
            message =
                "resource '"
                <> (var <> ("' created by '" <> (creator <> "' is never deleted in cleanup")));
          }
            ∷ others
    ]

unfoldable pub unknown_issue : List String → List GraphIssue
unfolding repr_texts
unknown_issue [] = []
unknown_issue (v ∷ unused) =
    record {
      rule_id = "WF-CLEANUP-UNKNOWN-VAR";
      severity = error;
      message = "cleanup deletes undefined variables: " <> repr_texts (v ∷ unused);
    }
    ∷ []

unfoldable pub validate_workflow_graph : Workflow → List GraphIssue
unfolding check_steps delete_vars addressed cleanup_issues unknown_issue
validate_workflow_graph w =
    let p =
      check_steps w.steps
        (record { issues = []; available = w.inputs; names = []; extracted_by = [] }) in
    let paths = addressed (w.steps ++ w.cleanup) in
    p.issues
    ++ (cleanup_issues (delete_vars w) p.extracted_by
          (sorted_set (keep (λ v. contains v paths) (keys p.extracted_by)))
        ++ unknown_issue (only_in (delete_vars w) (keys p.extracted_by ++ w.inputs)))

-- not any(i.severity == Severity.ERROR for i in self.issues)
unfoldable pub ok : List GraphIssue → Bool
ok issues = not (any (λ i. is_severity i.severity error) issues)
