-- ===== src/Stateful/Graph/Steps.antt =====
-- The loop over the steps of `validate_workflow_graph` (apiverity/stateful/graph.py).
use api_verity_lab.Common.{
  String, Bool, true, false, ◌||◌, List, [], ◌∷◌, ◌++◌, ◌≡◌, ◌↔◌, refl, sym, ap, subst, arith,
  nat_ord, text_ord, ==_refl, contains, contains-append, any-append, contains-only_in, only_in, any,
  map, if◌then◌else◌,
}
use api_verity_lab.Model.Finding.{error, is_severity}
use api_verity_lab.Stateful.Graph.{
  WorkflowStep, GraphIssue, used_by, extracts, is_destructive, Pass, duplicate_issues,
  missing_issue, check_step, check_steps, cleanup_issues, unknown_issue,
}

-- the variables that the steps extract
unfoldable pub extracted : List WorkflowStep → List String
extracted [] = []
extracted (step ∷ rest) = extracts step ++ extracted rest

-- the variables that the steps extract which change something
unfoldable pub created : List WorkflowStep → List String
created [] = []
created (step ∷ rest) = if is_destructive step then extracts step ++ created rest else created rest

abbrev pub is_error : GraphIssue → Bool
is_error i = is_severity i.severity error

abbrev pub errors : List GraphIssue → Bool
errors = any is_error

-- a difference of sets is empty just when the first is a part of the second
pub nothing_left :
    (xs ys zs : List String)
    → only_in xs ys ≡ zs
    → (zs ≡ []) ↔ ((v : String) → contains v xs ≡ true → contains v ys ≡ true)
unfolding contains
nothing_left xs ys [] e =
    (λ z v h. ground (arith, h, contains-only_in v xs ys, ap (contains v) e), λ h. refl)
nothing_left xs ys (z ∷ zs) e = (
  λ z. absurd (cc z),
  λ h. absurd (ground (arith, contains-only_in z xs ys, ap (contains z) e, ==_refl z, h z)),
)

pub missing_issue_lem :
    (step : WorkflowStep) (vs : List String) → (errors (missing_issue step vs) ≡ false) ↔ (vs ≡ [])
unfolding missing_issue any
missing_issue_lem step [] = (λ h. refl, λ h. refl)
missing_issue_lem step (v ∷ vs) = (λ h. absurd (cc h), λ h. absurd (cc h))

pub unknown_issue_lem : (vs : List String) → (errors (unknown_issue vs) ≡ false) ↔ (vs ≡ [])
unfolding unknown_issue any
unknown_issue_lem [] = (λ h. refl, λ h. refl)
unknown_issue_lem (v ∷ vs) = (λ h. absurd (cc h), λ h. absurd (cc h))

pub duplicate_issues_lem :
    (step : WorkflowStep) (names : List String)
    → errors (duplicate_issues step names) ≡ contains step.name names
unfolding duplicate_issues any
duplicate_issues_lem step names = ground arith

pub cleanup_issues-quiet :
    (deleted : List String) (by : List (String × String)) (vars : List String)
    → errors (cleanup_issues deleted by vars) ≡ false
unfolding cleanup_issues any
cleanup_issues-quiet deleted by [] = refl
cleanup_issues-quiet deleted by (v ∷ vars) = ground (arith, cleanup_issues-quiet deleted by vars)

-- the loop, with what is known before it
abbrev pub Holds : List String → List String → List WorkflowStep → Type 0
Holds names available [] = Unit
Holds names available (step ∷ rest) =
    (contains step.name names ≡ false)
    × ((v : String) → contains v (used_by step) ≡ true → contains v available ≡ true)
    × Holds (step.name ∷ names) (available ++ extracts step) rest

pub check_steps-Holds :
    (steps : List WorkflowStep) (p : Pass)
    → (errors (check_steps steps p).issues ≡ false)
      ↔ ((errors p.issues ≡ false) × Holds p.names p.available steps)
unfolding check_steps check_step
check_steps-Holds [] p = (λ h. (h, tt), λ h. h.0)
check_steps-Holds (step ∷ rest) p =
    let ih = check_steps-Holds rest (check_step step p) in
    let left = only_in (used_by step) p.available in
    let d = duplicate_issues_lem step p.names in
    let m = missing_issue_lem step left in
    let n = nothing_left (used_by step) p.available left refl in
    let a =
      any-append is_error p.issues (duplicate_issues step p.names ++ missing_issue step left) in
    let b = any-append is_error (duplicate_issues step p.names) (missing_issue step left) in
    (
      λ h.
          let (now, later) = ih.0 h in
          (
            ground (arith, now, a),
            (ground (arith, now, a, b, d), n.0 (m.0 (ground (arith, now, a, b))), later),
          ),
      λ h. ih.1 (ground (arith, h.0, h.1.0, m.1 (n.1 h.1.1), a, b, d), h.1.2),
    )

-- each step at its place
pub record Placed (names available : List String) (steps : List WorkflowStep) : Type 0 where
  pub fresh :
      (before after : List WorkflowStep) (step : WorkflowStep)
      → steps ≡ before ++ step ∷ after
      → (contains step.name (map (λ s. s.name) before) || contains step.name names) ≡ false
  pub known :
      (before after : List WorkflowStep) (step : WorkflowStep)
      → steps ≡ before ++ step ∷ after
      → (v : String) → contains v (used_by step) ≡ true
      → contains v (available ++ extracted before) ≡ true

pub head_of : (x y : WorkflowStep) (xs ys : List WorkflowStep) → x ∷ xs ≡ y ∷ ys → x ≡ y
head_of x y xs ys e = cc e

pub tail_of : (x y : WorkflowStep) (xs ys : List WorkflowStep) → x ∷ xs ≡ y ∷ ys → xs ≡ ys
tail_of x y xs ys e = cc e

pub no_place :
    (before after : List WorkflowStep) (step : WorkflowStep) → ¬ [] ≡ before ++ step ∷ after
no_place [] after step e = cc e
no_place (s ∷ before) after step e = cc e

pub later_known :
    (available : List String) (s b : WorkflowStep) (before : List WorkflowStep) (v : String)
    → s ≡ b
    → contains v ((available ++ extracts s) ++ extracted before) ≡ true
    → contains v (available ++ extracted (b ∷ before)) ≡ true
unfolding extracted
later_known available s b before v e h =
    subst (λ x. contains v (available ++ (extracts x ++ extracted before)) ≡ true) e
      (ground (
        arith,
        h,
        contains-append v (available ++ extracts s) (extracted before),
        contains-append v available (extracts s),
        contains-append v available (extracts s ++ extracted before),
        contains-append v (extracts s) (extracted before),
      ))

pub Holds-Placed :
    (steps : List WorkflowStep) (names available : List String)
    → Holds names available steps
    → Placed names available steps
unfolding extracted contains
Holds-Placed [] names available h = record {
  fresh = λ before after step e. absurd (no_place before after step e);
  known = λ before after step e. absurd (no_place before after step e);
}
Holds-Placed (s ∷ rest) names available h =
    let ih = Holds-Placed rest (s.name ∷ names) (available ++ extracts s) h.2 in
    record {
      fresh = λ before after step e.
          elim before
              as (λ b.
                s ∷ rest ≡ b ++ step ∷ after
                → (contains step.name (map (λ s. s.name) b) || contains step.name names) ≡ false) [
                  | [] ↦ λ e.
                      subst (λ x. contains x.name names ≡ false) (head_of s step rest after e) h.0
                  | b ∷ before ↦ λ e. ground (
                    arith,
                    ih.fresh before after step (tail_of s b rest (before ++ step ∷ after) e),
                    ap (λ x. x.name) (head_of s b rest (before ++ step ∷ after) e),
                  )
                ]
            e;
      known = λ before after step e v used.
          elim before
              as (λ b.
                s ∷ rest ≡ b ++ step ∷ after → contains v (available ++ extracted b) ≡ true) [
                  | [] ↦ λ e. ground (
                    arith,
                    contains-append v available [],
                    h.1 v (
                        subst (λ x. contains v (used_by x) ≡ true)
                          (sym (head_of s step rest after e)) used),
                  )
                  | b ∷ before ↦ λ e.
                      let at =
                        ih.known before after step (tail_of s b rest (before ++ step ∷ after) e) v
                          used in
                      later_known available s b before v
                        (head_of s b rest (before ++ step ∷ after) e) at
                ]
            e;
    }

pub Placed-Holds :
    (steps : List WorkflowStep) (names available : List String)
    → Placed names available steps
    → Holds names available steps
unfolding extracted contains
Placed-Holds [] names available h = tt
Placed-Holds (s ∷ rest) names available h = (
  ground (arith, h.fresh [] rest s refl),
  λ v used. ground (arith, h.known [] rest s refl v used, contains-append v available []),
  Placed-Holds rest (s.name ∷ names) (available ++ extracts s) (record {
    fresh = λ before after step e.
        ground (arith, h.fresh (s ∷ before) after step (ap (λ xs. s ∷ xs) e));
    known = λ before after step e v used. ground (
      arith,
      h.known (s ∷ before) after step (ap (λ xs. s ∷ xs) e) v used,
      contains-append v (available ++ extracts s) (extracted before),
      contains-append v available (extracts s),
      contains-append v available (extracts s ++ extracted before),
      contains-append v (extracts s) (extracted before),
    );
  }),
)
