-- ===== src/Rules/Breaking/Gate.antt =====
-- An operation that the new contract lost (apiverity/diff/engine.py) fails the gate
-- (apiverity/rules/breaking.py).
use api_verity_lab.Common.{
  String, Bool, true, false, ◌&&◌, ◌||◌, some, List, [], ◌∷◌, ◌++◌, ◌≡◌, refl, sym, ap, ◌∙◌, arith,
  ◌==◌, ==_iff, ==_refl, text_ord, option_ord, any, any-append, contains, contains-only_in, keys,
  get, dict_of, only_in, Bool-cases, Option-cases, inl, inr,
}
use api_verity_lab.Model.Value.{Value}
use api_verity_lab.Rules.Catalog.{catalog}
use api_verity_lab.Rules.Wording.{rendered}
use api_verity_lab.Model.Finding.{error, is_severity, Finding}
use api_verity_lab.Model.Operation.{RequestBody, Response, Operation, Service}
use api_verity_lab.Diff.Kind.{ChangeKind, operation_removed, rpc_removed}
use api_verity_lab.Diff.Change.{
  Call, Direction, Event, add, raise_type_error, Change, Engine, fresh, add_change, perform,
}
use api_verity_lab.Diff.Site.{each, in_turn}
use api_verity_lab.Diff.Run.{by_key, operation_gone, run, events_of}
use api_verity_lab.Rules.Breaking.Classified.{evaluate_changes-cons}
use api_verity_lab.Rules.Breaking.{
  rule_for, rule_of, severity_for, finding_of, judged, cannot_hash, evaluate_change, append_found,
  evaluate_changes,
}

-- The calls that a run makes, in order.
abbrev calls : List Event → List Call
calls [] = []
calls (add c ∷ rest) = c ∷ calls rest
calls (raise_type_error ∷ rest) = calls rest

calls-append : (xs ys : List Event) → calls (xs ++ ys) ≡ calls xs ++ calls ys
calls-append [] ys = refl
calls-append (add c ∷ xs) ys = rw (calls-append xs ys) refl
calls-append (raise_type_error ∷ xs) ys = calls-append xs ys

add_change-any :
    (sha256 : String → String) (test : Call → Bool) (e : Engine) (c : Call)
    → any (λ (ch : Change). test ch.call) (add_change sha256 e c).changes
      ≡ (any (λ (ch : Change). test ch.call) e.changes || test c)
unfolding add_change any
add_change-any sha256 test e c =
    any-append (λ (ch : Change). test ch.call) e.changes _ ∙ ground arith

-- A call of the first part of a method is one of the method's.
first_part :
    (test : Call → Bool) (events : List Event) (rest : List (List Event))
    → any test (calls events) ≡ true
    → any test (calls (in_turn (events ∷ rest))) ≡ true
unfolding in_turn
first_part test events rest h =
    rw
      (calls-append events (in_turn rest), any-append test (calls events) (calls (in_turn rest)), h)
      refl

-- A call that a run makes is a change of its result.
perform-any :
    (sha256 : String → String) (test : Call → Bool) (events : List Event) (e e' : Engine)
    → perform sha256 e events ≡ some e'
    → any (λ (ch : Change). test ch.call) e'.changes
      ≡ (any (λ (ch : Change). test ch.call) e.changes || any test (calls events))
unfolding perform any
perform-any sha256 test [] e e' h = ground (arith, h)
perform-any sha256 test (raise_type_error ∷ rest) e e' h = cc
perform-any sha256 test (add c ∷ rest) e e' h =
    perform-any sha256 test rest (add_change sha256 e c) e' h
    ∙ ground (arith, add_change-any sha256 test e c)

is_removal : ChangeKind → Bool
is_removal operation_removed = true
is_removal rpc_removed = true
is_removal _ = false

-- Without overrides, the rule of a removal is an error.
removal_rule :
    (kind : ChangeKind) (d : Direction) (desc : String) (old new : Value)
    → is_removal kind ≡ true
    → (rule : String) × (rule_for kind d desc old new ≡ some rule)
      × (severity_for [] rule ≡ some error)
      × (cannot_hash kind old new ≡ false)
unfolding is_removal rule_for severity_for get catalog cannot_hash
removal_rule operation_removed d desc old new h = ("BRK-OP-REMOVED", refl, refl, refl)
removal_rule rpc_removed d desc old new h = ("BRK-RPC-REMOVED", refl, refl, refl)
removal_rule _ d desc old new h = cc

one_finding :
    (c : Change) (rule : String)
    → cannot_hash c.kind c.old_value c.new_value ≡ false
    → rule_of c ≡ some rule
    → severity_for [] rule ≡ some error
    → evaluate_change [] c ≡ some (finding_of c rule error ∷ [])
unfolding evaluate_change judged
one_finding c rule hashes named severe = rw (hashes, named, judged) (rw severe refl)

module _ (k : String) where
  -- the call reports that the operation is gone
  removes : Call → Bool
  removes c = c.operation_key == k && is_removal c.kind

  -- an error of the operation
  abbrev pub is_error_at : Finding → Bool
  is_error_at f = is_severity f.severity error && f.operation_key == some k

  gone-any :
      (old : List (String × Operation)) (ks : List String)
      → contains k ks ≡ true
      → any removes (calls (each (operation_gone old) ks)) ≡ true
  unfolding contains each operation_gone any removes is_removal
  gone-any old [] h = cc
  gone-any old (j ∷ rest) h = ground (arith, gone-any old rest, ==_iff k j, ==_refl k)

  change-any :
      (c : Change) (found : List Finding)
      → removes c.call ≡ true
      → evaluate_change [] c ≡ some found
      → any is_error_at found ≡ true
  unfolding removes any finding_of evaluate_change judged
  change-any c found r e =
      let removal : is_removal c.kind ≡ true = ground (arith, r) in
      let (rule, named, severe, hashes) =
        removal_rule c.kind c.direction (rendered c.description) c.old_value c.new_value removal in
      let named' : rule_of c ≡ some rule = unfold rule_of in named in
      let one : evaluate_change [] c ≡ some (finding_of c rule error ∷ []) =
        one_finding c rule hashes named' severe in
      ground (arith, r, ==_refl (some k), ==_iff c.operation_key k, sym one ∙ e)

  evaluate-any :
      (changes : List Change) (found : List Finding)
      → any (λ (ch : Change). removes ch.call) changes ≡ true
      → evaluate_changes [] changes ≡ some found
      → any is_error_at found ≡ true
  unfolding evaluate_changes append_found any
  evaluate-any [] found r e = cc
  evaluate-any (c ∷ rest) found r e =
      let (first, others, split, one, more) = evaluate_changes-cons [] c rest found e in
      elim (Bool-cases (removes c.call)) [
        | inl own ↦ rw (split, any-append is_error_at first others, change-any c first own one) refl
        | inr other ↦
            let later : any (λ (ch : Change). removes ch.call) rest ≡ true =
              ground (arith, r, other) in
            rw (split, any-append is_error_at first others, evaluate-any rest others later more)
              (ground arith)
      ]

  module _ (sha256 : String → String) (body_json : RequestBody → String)
      (response_json : Response → String) (old new : Service) where
    events-any :
        contains k (keys (dict_of (by_key old.operations))) ≡ true
        → contains k (keys (dict_of (by_key new.operations))) ≡ false
        → any removes (calls (events_of sha256 body_json response_json old new)) ≡ true
    unfolding events_of
    events-any was gone =
        let ko = keys (dict_of (by_key old.operations)) in
        let kn = keys (dict_of (by_key new.operations)) in
        let listed : contains k (only_in ko kn) ≡ true =
          ground (arith, was, gone, contains-only_in k ko kn) in
        let first = gone-any (dict_of (by_key old.operations)) (only_in ko kn) listed in
        first_part removes _ _ first

    -- An operation that the old contract has and the new one has not gives, in every comparison that
    -- returns and without severity overrides, a finding of severity ERROR with the operation's key.
    pub removed_operation-any :
        (changes : List Change) (found : List Finding)
        → contains k (keys (dict_of (by_key old.operations))) ≡ true
        → contains k (keys (dict_of (by_key new.operations))) ≡ false
        → run sha256 body_json response_json old new ≡ some changes
        → evaluate_changes [] changes ≡ some found
        → any is_error_at found ≡ true
    unfolding run any
    removed_operation-any changes found was gone ran judged =
        elim (Option-cases
          (perform sha256 fresh (events_of sha256 body_json response_json old new))) [
            | inl e ↦ cc
            | inr (engine, e) ↦
                let made = perform-any sha256 removes _ fresh engine e in
                let result : engine.changes ≡ changes = ground (arith, ran, e) in
                evaluate-any changes found
                  (ap (any (λ (ch : Change). removes ch.call)) (sym result)
                    ∙ made
                    ∙ events-any was gone)
                  judged
          ]
