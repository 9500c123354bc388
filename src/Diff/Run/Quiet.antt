-- ===== src/Diff/Run/Quiet.antt =====
-- Lists of events of `DiffEngine` (apiverity/diff/engine.py) that are empty.
use api_verity_lab.Common.{
  ==_refl, if◌then◌else◌, ◌+◌, String, Bool, true, false, not, some, List, [], ◌∷◌, ◌++◌, length,
  length-append, ◌≡◌, refl, arith, ◌==◌, ==_iff, text_ord, list_ord, contains, contains-only_in,
  keys, only_in, Option-cases, inl, inr, Ord, get, in_both, subst, sym, Bool-cases,
}
use api_verity_lab.Model.Operation.{Operation}
use api_verity_lab.Diff.Change.{
  Call, Event, add, raise_type_error, Engine, counter, scope_of, change_id, add_change, perform,
}
use api_verity_lab.Diff.Site.{when, each, in_turn}
use api_verity_lab.Diff.Media.{at_both}

pub perform-length :
    (sha256 : String → String) (events : List Event) (e e' : Engine)
    → perform sha256 e events ≡ some e'
    → length e'.changes ≡ length e.changes + length events
unfolding perform add_change
perform-length sha256 [] e e' h = ground (arith, h)
perform-length sha256 (raise_type_error ∷ rest) e e' h = cc
perform-length sha256 (add c ∷ rest) e e' h =
    let longer = length-append e.changes (
      record { id = change_id sha256 c (counter (scope_of sha256 c) e.counters + 1); call = c }
      ∷ []) in
    omega (arith, perform-length sha256 rest (add_change sha256 e c) e' h, longer)

pub nil_of_length {ℓ} : {A : Type ℓ} (xs : List A) → length xs ≡ 0 → xs ≡ []
nil_of_length [] h = refl
nil_of_length (x ∷ xs) h = ground arith

pub append_nil {ℓ} : {A : Type ℓ} (xs ys : List A) → xs ++ ys ≡ [] → (xs ≡ []) × (ys ≡ [])
append_nil [] ys h = (refl, h)
append_nil (x ∷ xs) ys h = cc

-- every part gives nothing
abbrev pub EachNil : List (List Event) → Type 0
EachNil [] = Unit
EachNil (events ∷ rest) = (events ≡ []) × EachNil rest

pub in_turn-EachNil : (parts : List (List Event)) → in_turn parts ≡ [] → EachNil parts
unfolding in_turn
in_turn-EachNil [] h = tt
in_turn-EachNil (events ∷ rest) h =
    let (first, others) = append_nil events (in_turn rest) h in (first, in_turn-EachNil rest others)

pub when_nil : (b : Bool) (c : Call) → when b c ≡ [] → b ≡ false
when_nil true c h = cc
when_nil false c h = refl

pub each_nil :
    (body : String → Call) (xs : List String) → each (λ x. add (body x) ∷ []) xs ≡ [] → xs ≡ []
unfolding each
each_nil body [] h = refl
each_nil body (x ∷ xs) h = cc

pub each_nil_at :
    (body : String → List Event) (k : String) (xs : List String)
    → each body xs ≡ []
    → contains k xs ≡ true
    → body k ≡ []
unfolding each contains
each_nil_at body k [] h there = cc
each_nil_at body k (x ∷ xs) h there =
    let (first, others) = append_nil (body x) (each body xs) h in
    elim (Bool-cases (k == x)) [
      | inl same ↦ subst (λ j. body j ≡ []) (sym ((==_iff k x).0 same)) first
      | inr other ↦ each_nil_at body k xs others (ground (arith, there, other))
    ]

-- every member of `xs` is one of `ys`
pub no_others :
    (xs ys : List String)
    → only_in xs ys ≡ []
    → (k : String) → contains k xs ≡ true
    → contains k ys ≡ true
unfolding contains
no_others xs ys h k there = ground (arith, h, contains-only_in k xs ys)

pub equal_of_not : {A : Type 0} ⦃o : Ord A⦄ (a b : A) → not (a == b) ≡ false → a ≡ b
equal_of_not a b h = ground (arith, ==_iff a b)

pub EachNil-in_turn : (parts : List (List Event)) → EachNil parts → in_turn parts ≡ []
unfolding in_turn
EachNil-in_turn [] h = refl
EachNil-in_turn (events ∷ rest) h = rw h.0 (EachNil-in_turn rest h.1)

pub each-nil :
    (body : String → List Event) (xs : List String)
    → ((k : String) → contains k xs ≡ true → body k ≡ [])
    → each body xs ≡ []
unfolding each contains
each-nil body [] h = refl
each-nil body (x ∷ xs) h =
    rw (h x (ground (arith, ==_refl x))) (each-nil body xs (λ k there. h k (ground (arith, there))))

pub when-same : (b : Bool) (c : Call) → b ≡ true → when (not b) c ≡ []
when-same true c h = refl
when-same false c h = cc

pub if_nil :
    (b : Bool) (events : List Event) → (b ≡ true → events ≡ []) → (if b then events else []) ≡ []
if_nil true events h = h refl
if_nil false events h = refl

pub at_both-nil :
    (olds news : List (String × Operation)) (k : String) (f : Operation → Operation → List Event)
    → contains k (in_both (keys olds) (keys news)) ≡ true
    → ((o n : Operation) → get k olds ≡ some o → get k news ≡ some n → f o n ≡ [])
    → at_both (get k olds) (get k news) f ≡ []
unfolding at_both
at_both-nil olds news k f there h = elim (Option-cases (get k olds)) [
  | inl e ↦ rw (e, at_both) refl
  | inr (o, e) ↦ elim (Option-cases (get k news)) [
    | inl d ↦ rw (e, d, at_both) refl
    | inr (n, d) ↦ rw (e, d, at_both) (h o n e d)
  ]
]
