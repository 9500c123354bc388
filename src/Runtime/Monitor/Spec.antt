-- ===== src/Runtime/Monitor/Spec.antt =====
-- What `apply_run` of apiverity/runtime/monitor.py reports, told by the findings before and after.
use mathlib.Core.Path.{fun_ext}
use api_verity_lab.Common.{
  append_one, any, some, none, ◌||◌, option_ord, ==_iff, String, Bool, true, false, not, ◌&&◌,
  Option, is_some, List, [], ◌∷◌, ◌++◌, ◌≡◌, refl, arith, ◌==◌, text_ord, nat_ord, if◌then◌else◌,
  contains, keep, get, put_all, ap, ◌∙◌,
}
use api_verity_lab.Common.Text.{is_empty}
use api_verity_lab.Model.Value.{Number}
use api_verity_lab.Model.Operation.{or_else}
use api_verity_lab.Runtime.Monitor.{
  Finding, unobservable_rules, unobserved_operations, MonitorState, Fold, persist, appear, resolve,
  carry, cross, note_message, see, see_all, miss, miss_all, values_of, current_of, fold_run,
  apply_observed,
}

-- Some finding of the run is for the operation and says that it could not be reached.
abbrev pub is_unreached : List Finding → Option String → Bool
is_unreached observed none = false
is_unreached observed (some operation) =
    not (is_empty operation)
    && any
        (λ f.
          (f.rule_id == some "DRIFT-UNREACHABLE" || f.rule_id == some "GHOST-UNREACHABLE")
          && f.operation_key == some operation)
        observed

or_else-some : (s : String) → or_else (some s) "" ≡ s
unfolding is_empty
or_else-some String.[] = refl
or_else-some (String.◌∷◌ c s) = refl

unobservable_lem :
    (rule : Option String)
    → contains (or_else rule "") unobservable_rules
      ≡ (rule == some "DRIFT-UNREACHABLE" || rule == some "GHOST-UNREACHABLE")
unfolding contains unobservable_rules any
unobservable_lem none = refl
unobservable_lem (some s) = rw (or_else-some s) (ground arith)

unobserved-step :
    (known : Bool) (own : Option String) (operation : String) (others : List String) (later : Bool)
    → contains operation others ≡ (not (is_empty operation) && later)
    → contains operation
        (if known && not (is_empty (or_else own "")) then or_else own "" ∷ others else others)
      ≡ (not (is_empty operation) && ((known && own == some operation) || later))
unfolding contains any is_empty
unobserved-step false own operation others later h = h
unobserved-step true none operation others later h = h
unobserved-step true (some s) operation others later h =
    rw (or_else-some s) (ground (arith, h, ==_iff s operation, ==_iff operation s))

unobserved-contains :
    (observed : List Finding) (operation : String)
    → contains operation (unobserved_operations observed) ≡ is_unreached observed (some operation)
unfolding unobserved_operations any
unobserved-contains [] operation = unfold contains in ground arith
unobserved-contains (f ∷ rest) operation =
    rw (unobservable_lem f.rule_id)
      (unobserved-step _ f.operation_key operation _ _ (unobserved-contains rest operation))

unobserved-any :
    (observed : List Finding) (operation : Option String)
    → contains (or_else operation "") (unobserved_operations observed)
      ≡ is_unreached observed operation
unfolding is_empty
unobserved-any observed none = unobserved-contains observed ""
unobserved-any observed (some operation) =
    ap (λ o. contains o (unobserved_operations observed)) (or_else-some operation)
    ∙ unobserved-contains observed operation

abbrev pub is_new : List (String × Finding) → String × Finding → Bool
is_new previous kf = not (is_some (get kf.0 previous))

abbrev pub is_gone : List (String × Finding) → List String → String × Finding → Bool
is_gone current unobserved kf =
    not (is_some (get kf.0 current)) && not (contains (or_else kf.1.operation_key "") unobserved)

abbrev pub is_unknown : List (String × Finding) → List String → String × Finding → Bool
is_unknown current unobserved kf =
    not (is_some (get kf.0 current)) && contains (or_else kf.1.operation_key "") unobserved

append_nil_eq {ℓ} : {A : Type ℓ} (xs : List A) → xs ++ [] ≡ xs
append_nil_eq [] = refl
append_nil_eq (x ∷ xs) = rw (append_nil_eq xs) refl

from_nil {ℓ} : {A : Type ℓ} (xs ys zs : List A) → xs ≡ ys ++ zs → ys ≡ [] → xs ≡ zs
from_nil xs ys zs h e = h ∙ rw e refl

module _ (previous : List (String × Finding)) where
  see_all-appeared :
      (baseline : Bool) (cur : List (String × Finding)) (w : Fold)
      → (see_all baseline previous cur w).out.appeared
        ≡ w.out.appeared ++ (if baseline then [] else values_of (keep (is_new previous) cur))
  unfolding see_all see values_of keep persist appear cross note_message
  see_all-appeared true [] w = rw (append_nil_eq w.out.appeared) refl
  see_all-appeared false [] w = rw (append_nil_eq w.out.appeared) refl
  see_all-appeared baseline ((key, f) ∷ rest) w =
      let next = see_all-appeared baseline rest (see baseline (get key previous) key f w) in
      let one = append_one w.out.appeared f (values_of (keep (is_new previous) rest)) in
      ground (arith, next, one)

  -- The first loop resolves and carries nothing.
  see_all-rest :
      (baseline : Bool) (cur : List (String × Finding)) (w : Fold)
      → let after = see_all baseline previous cur w in
        (after.out.resolved ≡ w.out.resolved)
        × (after.out.carried ≡ w.out.carried)
        × (after.out.unobserved ≡ w.out.unobserved)
        × (after.kept ≡ w.kept)
  unfolding see_all see persist appear cross note_message
  see_all-rest baseline [] w = (refl, refl, refl, refl)
  see_all-rest baseline ((key, f) ∷ rest) w =
      ground (arith, see_all-rest baseline rest (see baseline (get key previous) key f w))

module _ (current : List (String × Finding)) (unobserved : List String) where
  miss_all-resolved :
      (prev : List (String × Finding)) (w : Fold)
      → (miss_all current unobserved prev w).out.resolved
        ≡ w.out.resolved ++ values_of (keep (is_gone current unobserved) prev)
  unfolding miss_all miss values_of keep carry resolve cross
  miss_all-resolved [] w = rw (append_nil_eq w.out.resolved) refl
  miss_all-resolved ((key, f) ∷ rest) w =
      let next = miss_all-resolved rest (miss current unobserved key f w) in
      let one = append_one w.out.resolved f (values_of (keep (is_gone current unobserved) rest)) in
      ground (arith, next, one)

  miss_all-carried :
      (prev : List (String × Finding)) (w : Fold)
      → (miss_all current unobserved prev w).out.carried
        ≡ w.out.carried ++ values_of (keep (is_unknown current unobserved) prev)
  unfolding miss_all miss values_of keep carry resolve cross
  miss_all-carried [] w = rw (append_nil_eq w.out.carried) refl
  miss_all-carried ((key, f) ∷ rest) w =
      let next = miss_all-carried rest (miss current unobserved key f w) in
      let one =
        append_one w.out.carried f (values_of (keep (is_unknown current unobserved) rest)) in
      ground (arith, next, one)

  -- The second loop lets nothing appear.
  miss_all-appeared :
      (prev : List (String × Finding)) (w : Fold)
      → (miss_all current unobserved prev w).out.appeared ≡ w.out.appeared
  unfolding miss_all miss carry resolve cross
  miss_all-appeared [] w = refl
  miss_all-appeared ((key, f) ∷ rest) w =
      ground (arith, miss_all-appeared rest (miss current unobserved key f w))

  miss_all-kept :
      (prev : List (String × Finding)) (w : Fold)
      → (miss_all current unobserved prev w).kept
        ≡ put_all w.kept (keep (is_unknown current unobserved) prev)
  unfolding miss_all miss carry resolve cross keep put_all
  miss_all-kept [] w = refl
  miss_all-kept ((key, f) ∷ rest) w =
      ground (arith, miss_all-kept rest (miss current unobserved key f w))

module _ (state : MonitorState) (observed : List Finding) (measured : Option Number) where
  pub apply_observed-parts :
      let out = (apply_observed state observed measured).1 in
      let current = current_of observed in
      let unobserved = unobserved_operations observed in
      (out.appeared
        ≡ (if state.runs == 0 then [] else values_of (keep (is_new state.findings) current)))
      × (out.resolved ≡ values_of (keep (is_gone current unobserved) state.findings))
      × (out.carried ≡ values_of (keep (is_unknown current unobserved) state.findings))
  unfolding apply_observed fold_run
  apply_observed-parts =
      let current = current_of observed in
      let unobserved = unobserved_operations observed in
      let first = see_all-appeared state.findings (state.runs == 0) current _ in
      let kept = see_all-rest state.findings (state.runs == 0) current _ in
      (
        miss_all-appeared current unobserved state.findings _ ∙ first,
        from_nil _ _ _ (miss_all-resolved current unobserved state.findings _) kept.0,
        from_nil _ _ _ (miss_all-carried current unobserved state.findings _) kept.1,
      )

  abbrev pub is_resolved : String × Finding → Bool
  is_resolved kf =
      not (is_some (get kf.0 (current_of observed)))
      && not (is_unreached observed kf.1.operation_key)

  abbrev pub is_carried : String × Finding → Bool
  is_carried kf =
      not (is_some (get kf.0 (current_of observed))) && is_unreached observed kf.1.operation_key

  is_gone-is_resolved : is_gone (current_of observed) (unobserved_operations observed) ≡ is_resolved
  is_gone-is_resolved = fun_ext λ kf.
      ap (λ b. not (is_some (get kf.0 (current_of observed))) && not b)
        (unobserved-any observed kf.1.operation_key)

  is_unknown-is_carried :
      is_unknown (current_of observed) (unobserved_operations observed) ≡ is_carried
  is_unknown-is_carried = fun_ext λ kf.
      ap (λ b. not (is_some (get kf.0 (current_of observed))) && b)
        (unobserved-any observed kf.1.operation_key)

  -- A run that began reports three things and no others, also when it measured nothing. What appeared is
  -- every finding of this run whose key was not known, or nothing on a baseline run. Of the known
  -- findings whose key is missing now, one is carried if some finding of this run has the rule
  -- DRIFT-UNREACHABLE or GHOST-UNREACHABLE and its operation, which is not empty; else it is resolved.
  pub apply_observed-reports :
      let out = (apply_observed state observed measured).1 in
      (out.appeared ≡ (
        if state.runs == 0
        then []
        else values_of (keep (is_new state.findings) (current_of observed))))
      × (out.resolved ≡ values_of (keep is_resolved state.findings))
      × (out.carried ≡ values_of (keep is_carried state.findings))
  apply_observed-reports =
      let (appeared, resolved, carried) = apply_observed-parts in
      (
        appeared,
        resolved ∙ ap (λ test. values_of (keep test state.findings)) is_gone-is_resolved,
        carried ∙ ap (λ test. values_of (keep test state.findings)) is_unknown-is_carried,
      )

  -- What is known after the run: this run's findings, and the ones it carried.
  pub apply_observed-findings :
      let current = current_of observed in
      (apply_observed state observed measured).0.findings
      ≡ put_all current
          (put_all [] (keep (is_unknown current (unobserved_operations observed)) state.findings))
  unfolding apply_observed fold_run
  apply_observed-findings =
      let current = current_of observed in
      let kept = see_all-rest state.findings (state.runs == 0) current _ in
      ap (put_all current) (
        miss_all-kept current (unobserved_operations observed) state.findings _
        ∙ ap
            (λ d.
              put_all d (keep (is_unknown current (unobserved_operations observed)) state.findings))
            kept.3)
