-- ===== src/Stateful/Graph/Sound.antt =====
-- What it means that `validate_workflow_graph` of apiverity/stateful/graph.py reports no error.
use api_verity_lab.Common.{
  String, true, false, ◌||◌, List, [], ◌∷◌, ◌++◌, ◌==◌, ◌≡◌, ◌↔◌, refl, sym, ◌∙◌, arith, nat_ord,
  text_ord, ==_iff, contains, contains-keys, contains-append, any-append, only_in, sorted_set, keys,
  put, get-put, put_all, keep, any, map, Bool-cases, inl, inr,
}
use api_verity_lab.Stateful.Graph.{
  WorkflowStep, Workflow, used_by, extracts, is_destructive, Pass, check_step, check_steps,
  delete_vars, addressed, cleanup_issues, unknown_issue, validate_workflow_graph, ok,
}
use api_verity_lab.Stateful.Graph.Steps.{
  extracted, created, errors, is_error, nothing_left, unknown_issue_lem, cleanup_issues-quiet,
  check_steps-Holds, Holds-Placed, Placed-Holds,
}

-- No two steps have one name, each step uses only inputs and what earlier steps extract, and the
-- cleanup deletes only inputs and what steps that change something extract.
pub record IsSound (w : Workflow) : Type 0 where
  pub apart :
      (before after : List WorkflowStep) (step : WorkflowStep)
      → w.steps ≡ before ++ step ∷ after
      → contains step.name (map (λ s. s.name) before) ≡ false
  pub defined :
      (before after : List WorkflowStep) (step : WorkflowStep)
      → w.steps ≡ before ++ step ∷ after
      → (v : String) → contains v (used_by step) ≡ true
      → contains v (w.inputs ++ extracted before) ≡ true
  pub deletes :
      (v : String)
      → contains v (delete_vars w) ≡ true
      → contains v (created w.steps ++ w.inputs) ≡ true

contains-put :
    (k j : String) (v : String) (d : List (String × String))
    → contains k (keys (put j v d)) ≡ (k == j || contains k (keys d))
contains-put k j v d =
    ground (
      arith,
      contains-keys k (put j v d),
      contains-keys k d,
      get-put k j v d,
      ==_iff k j,
      ==_iff j k,
    )

-- all variables of a step, with its name
contains-put_all :
    (k name : String) (vars : List String) (d : List (String × String))
    → contains k (keys (put_all d (map (λ v. (v, name)) vars)))
      ≡ (contains k (keys d) || contains k vars)
unfolding put_all contains
contains-put_all k name [] d = ground arith
contains-put_all k name (v ∷ vars) d =
    ground (arith, contains-put_all k name vars (put v name d), contains-put k v name d)

check_steps-created :
    (steps : List WorkflowStep) (p : Pass) (v : String)
    → contains v (keys (check_steps steps p).extracted_by)
      ≡ (contains v (keys p.extracted_by) || contains v (created steps))
unfolding check_steps check_step created contains
check_steps-created [] p v = ground arith
check_steps-created (step ∷ rest) p v = elim (Bool-cases (is_destructive step)) [
  | inl makes ↦ ground (
    arith,
    makes,
    check_steps-created rest (check_step step p) v,
    contains-put_all v step.name (extracts step) p.extracted_by,
    contains-append v (extracts step) (created rest),
  )
  | inr reads ↦ ground (arith, reads, check_steps-created rest (check_step step p) v)
]

abbrev start : Workflow → Pass
start w = record { issues = []; available = w.inputs; names = []; extracted_by = [] }

validate-errors :
    (w : Workflow)
    → errors (validate_workflow_graph w) ≡ (
        errors (check_steps w.steps (start w)).issues
        || errors (
            unknown_issue (
              only_in
                (delete_vars w)
                (keys (check_steps w.steps (start w)).extracted_by ++ w.inputs))))
unfolding validate_workflow_graph
validate-errors w =
    let p = check_steps w.steps (start w) in
    let vars =
      sorted_set
        (keep (λ v. contains v (addressed (w.steps ++ w.cleanup))) (keys p.extracted_by)) in
    let last = unknown_issue (only_in (delete_vars w) (keys p.extracted_by ++ w.inputs)) in
    ground (
      arith,
      any-append is_error p.issues (cleanup_issues (delete_vars w) p.extracted_by vars ++ last),
      any-append is_error (cleanup_issues (delete_vars w) p.extracted_by vars) last,
      cleanup_issues-quiet (delete_vars w) p.extracted_by vars,
    )

-- The validation of a workflow reports no error just when no two of its steps have one name, each
-- step uses only inputs of the workflow and variables that steps before it extract, and the cleanup
-- deletes only inputs and variables that a step extracts whose method changes something: a variable
-- that only a GET extracts counts as unknown there.
pub validate_workflow_graph-IsSound :
    (w : Workflow) → (ok (validate_workflow_graph w) ≡ true) ↔ IsSound w
unfolding ok contains keys any
validate_workflow_graph-IsSound w =
    let p = check_steps w.steps (start w) in
    let e = validate-errors w in
    let u = unknown_issue_lem (only_in (delete_vars w) (keys p.extracted_by ++ w.inputs)) in
    let n = nothing_left (delete_vars w) (keys p.extracted_by ++ w.inputs) _ refl in
    let h = check_steps-Holds w.steps (start w) in
    let same : (v : String)
        → contains v (keys p.extracted_by ++ w.inputs) ≡ contains v (created w.steps ++ w.inputs) =
      λ v. ground (
        arith,
        check_steps-created w.steps (start w) v,
        contains-append v (keys p.extracted_by) w.inputs,
        contains-append v (created w.steps) w.inputs,
      ) in
    (
      λ z.
          let placed = Holds-Placed w.steps [] w.inputs (h.0 (ground (arith, z, e))).1 in
          record {
            apart = λ before after step at. ground (arith, placed.fresh before after step at);
            defined = placed.known;
            deletes = λ v d. sym (same v) ∙ n.0 (u.0 (ground (arith, z, e))) v d;
          },
      λ s.
          let holds = Placed-Holds w.steps [] w.inputs (record {
            fresh = λ before after step at. ground (arith, s.apart before after step at);
            known = s.defined;
          }) in
          ground (arith, e, h.1 (refl, holds), u.1 (n.1 (λ v d. same v ∙ s.deletes v d))),
    )
