-- ===== src/Server/Audit/Tamper.antt =====
-- What the last hash of a chain says of all its entries (apiverity/server/audit_export.py).
use Prim.Native.Char.{char}
use text.Mathlib.TextLemmas.{append_assoc}
use api_verity_lab.Common.{
  ℕ, String, ◌<>◌, ◌++◌, true, List, [], ◌∷◌, ◌≡◌, refl, sym, ap, ◌∙◌, length, length-append, arith,
}
use api_verity_lab.Common.Text.Separators.{free_of, separator_splits, one-append}
use api_verity_lab.Server.Audit.{AuditEvent, basis, entry_basis, entry_hash, walk, verify_chain}
use api_verity_lab.Server.Audit.Chain.{tip, IsLinked, walk-IsLinked}

-- no `|` in the text
abbrev pub Barless : String → Type 0
Barless s = free_of b'|' s ≡ true

-- no `|` in the fields that stand before another one in the text that is hashed
pub record IsPlain (e : AuditEvent) : Type 0 where
  pub ts : Barless e.ts
  pub actor : Barless e.actor
  pub action : Barless e.action
  pub target : Barless e.target

-- the two entries have the same contents
pub record Same (e f : AuditEvent) : Type 0 where
  pub prev_hash : e.prev_hash ≡ f.prev_hash
  pub ts : e.ts ≡ f.ts
  pub actor : e.actor ≡ f.actor
  pub action : e.action ≡ f.action
  pub target : e.target ≡ f.target
  pub payload_json : e.payload_json ≡ f.payload_json
  pub entry_hash : e.entry_hash ≡ f.entry_hash

bar_splits :
    (a b x y : String)
    → Barless a
    → Barless b
    → a <> ("|" <> x) ≡ b <> ("|" <> y)
    → (a ≡ b) × (x ≡ y)
bar_splits a b x y ha hb e = separator_splits (char b'|' tt) a b x y ha hb (
    ap (λ t. a <> t) (sym (one-append (char b'|' tt) x))
    ∙ e
    ∙ ap (λ t. b <> t) (one-append (char b'|' tt) y))

basis-Same :
    (e f : AuditEvent)
    → Barless e.prev_hash
    → Barless f.prev_hash
    → IsPlain e
    → IsPlain f
    → entry_basis e ≡ entry_basis f
    → e.entry_hash ≡ f.entry_hash
    → Same e f
unfolding basis
basis-Same e f he hf pe pf same hash =
    let (p, r1) = bar_splits e.prev_hash f.prev_hash _ _ he hf same in
    let (q, r2) = bar_splits e.ts f.ts _ _ pe.ts pf.ts r1 in
    let (r, r3) = bar_splits e.actor f.actor _ _ pe.actor pf.actor r2 in
    let (s, r4) = bar_splits e.action f.action _ _ pe.action pf.action r3 in
    let (t, u) = bar_splits e.target f.target _ _ pe.target pf.target r4 in
    record {
      prev_hash = p;
      ts = q;
      actor = r;
      action = s;
      target = t;
      payload_json = u;
      entry_hash = hash;
    }

abbrev pub AllPlain : List AuditEvent → Type 0
AllPlain [] = Unit
AllPlain (e ∷ rest) = IsPlain e × AllPlain rest

-- the entries at each place have the same contents
abbrev pub AllSame : List AuditEvent → List AuditEvent → Type 0
AllSame [] [] = Unit
AllSame (e ∷ es) (f ∷ fs) = Same e f × AllSame es fs
AllSame _ _ = ⊥

module _ (digest : String → String) (injective : (s t : String) → digest s ≡ digest t → s ≡ t)
    (hexadecimal : (s : String) → Barless (digest s)) where
  hash-Barless : (e : AuditEvent) → e.entry_hash ≡ digest (entry_basis e) → Barless e.entry_hash
  hash-Barless e h = rw h (hexadecimal (entry_basis e))

  tip-AllSame :
      (p q : String) (es fs : List AuditEvent)
      → IsLinked digest p es
      → IsLinked digest q fs
      → Barless p
      → Barless q
      → AllPlain es
      → AllPlain fs
      → length es ≡ length fs
      → tip p es ≡ tip q fs
      → (p ≡ q) × AllSame es fs
  tip-AllSame p q [] [] h k hp hq pe pf len e = (e, tt)
  tip-AllSame p q [] (f ∷ fs) h k hp hq pe pf len e = absurd (omega (arith, len))
  tip-AllSame p q (e ∷ es) [] h k hp hq pe pf len same = absurd (omega (arith, len))
  tip-AllSame p q (e ∷ es) (f ∷ fs) h k hp hq pe pf len same =
      let (hash, rest) =
        tip-AllSame e.entry_hash f.entry_hash es fs h.1 k.1 (hash-Barless e h.0.1)
          (hash-Barless f k.0.1) pe.1 pf.1 (omega (arith, len)) same in
      let both =
        basis-Same e f (rw h.0.0 hp) (rw k.0.0 hq) pe.0 pf.0
          (injective (entry_basis e) (entry_basis f) (sym h.0.1 ∙ hash ∙ k.0.1)) hash in
      (sym h.0.0 ∙ both.prev_hash ∙ k.0.0, (both, rest))

  -- Two chains that verify, have as many entries and end with the same hash have the same contents,
  -- entry by entry, if the digest has no collision and is written without a bar, and no timestamp,
  -- actor, action or target holds a bar.
  pub verify_chain-AllSame :
      (es fs : List AuditEvent)
      → (verify_chain digest es).valid ≡ true
      → (verify_chain digest fs).valid ≡ true
      → AllPlain es
      → AllPlain fs
      → length es ≡ length fs
      → tip "" es ≡ tip "" fs
      → AllSame es fs
  unfolding verify_chain
  verify_chain-AllSame es fs h k pe pf len same =
      (tip-AllSame "" "" es fs ((walk-IsLinked digest (length es) "" es).0 h)
        ((walk-IsLinked digest (length fs) "" fs).0 k) (unfold free_of in refl)
        (unfold free_of in refl) pe pf len same).1

-- the same entry with the end of its actor, from a bar on, written before its action
abbrev pub moved : AuditEvent → String → String → AuditEvent
moved e actor rest = record e { actor = actor; action = rest <> ("|" <> e.action) }

module _ (digest : String → String) where
  moved-basis :
      (e : AuditEvent) (actor rest : String)
      → e.actor ≡ actor <> ("|" <> rest)
      → entry_basis (moved e actor rest) ≡ entry_basis e
  unfolding basis
  moved-basis e actor rest h = rw h (simp (append_assoc) refl)

  walk-moved :
      (count : ℕ) (previous : String) (before after : List AuditEvent) (e : AuditEvent)
      (actor rest : String)
      → e.actor ≡ actor <> ("|" <> rest)
      → walk digest count previous (before ++ (moved e actor rest ∷ after))
        ≡ walk digest count previous (before ++ (e ∷ after))
  unfolding walk entry_hash
  walk-moved count previous [] after e actor rest h = rw (moved-basis e actor rest h) refl
  walk-moved count previous (f ∷ before) after e actor rest h =
      rw (walk-moved count f.entry_hash before after e actor rest h) refl

  -- If the actor of an entry holds a bar, the walk over a list with that entry gives the same answer
  -- when the actor's text from the bar on is moved to the front of the entry's action, which changes
  -- both fields.
  pub verify_chain-moved :
      (before after : List AuditEvent) (e : AuditEvent) (actor rest : String)
      → e.actor ≡ actor <> ("|" <> rest)
      → verify_chain digest (before ++ moved e actor rest ∷ after)
        ≡ verify_chain digest (before ++ e ∷ after)
  unfolding verify_chain
  verify_chain-moved before after e actor rest h =
      ap (λ n. walk digest n "" (before ++ moved e actor rest ∷ after))
        (length-append before (moved e actor rest ∷ after) ∙ sym (length-append before (e ∷ after)))
      ∙ walk-moved (length (before ++ e ∷ after)) "" before after e actor rest h
