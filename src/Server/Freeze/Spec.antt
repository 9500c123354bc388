-- ===== src/Server/Freeze/Spec.antt =====
-- What the emergency stop of apiverity/server/store.py promises: an organization is frozen from a
-- freeze to the next lift, whatever is done in between or for others.
use api_verity_lab.Common.{
  ℕ, ◌+◌, ◌≤◌, String, Bool, false, ◌||◌, Option, none, some, List, [], ◌∷◌, ◌==◌, ◌≡◌, refl, sym,
  ap, ◌∙◌, subst, arith, nat_ord, ==_iff, is_some, any, All, All-snoc, if◌then◌else◌, Option-cases,
  Bool-cases, inl, inr,
}
use api_verity_lab.Server.Rows.{last_where}
use api_verity_lab.Server.Audit.{audit_all, events_of}
use api_verity_lab.Server.Audit.Chain.{Append, append, IsLinked, audit_append-IsLinked}
use api_verity_lab.Server.Freeze.{
  FreezeRow, Store, empty_store, is_open, state_of, freeze_state, add_freeze, freeze, close_freeze,
  lift_freeze,
}
use api_verity_lab.Server.Freeze.Rows.{
  AllApart, AllApart-snoc, any-snoc, is_some-last_where, closed, close-any_self, close-any_other,
  closed-AllApart, closed-All_below, All_below-suc,
}

-- A call of the store, with its arguments and the times that it reads.
pub data Op : Type 0 where
  stop :
      (org_id : ℕ) (actor reason : String) (review_by : Option String) (now ts later : String) → Op
  lift : (org_id : ℕ) (actor reason now ts : String) → Op
  log : Append → Op

-- frozen, by the calls alone
unfoldable pub frozen_after : ℕ → List Op → Bool → Bool
frozen_after org_id [] before = before
frozen_after org_id (stop o actor reason review_by now ts later ∷ rest) before =
    frozen_after org_id rest (o == org_id || before)
frozen_after org_id (lift o actor reason now ts ∷ rest) before =
    frozen_after org_id rest (if o == org_id then false else before)
frozen_after org_id (log c ∷ rest) before = frozen_after org_id rest before

frozen_after-cons :
    (org_id : ℕ) (op : Op) (rest : List Op) (before : Bool)
    → frozen_after org_id rest (frozen_after org_id (op ∷ []) before)
      ≡ frozen_after org_id (op ∷ rest) before
unfolding frozen_after
frozen_after-cons org_id (stop o actor reason review_by now ts later) rest before = refl
frozen_after-cons org_id (lift o actor reason now ts) rest before = refl
frozen_after-cons org_id (log c) rest before = refl

state_of-active : (row : Option FreezeRow) (now : String) → (state_of row now).active ≡ is_some row
state_of-active none now = refl
state_of-active (some row) now = refl

pub freeze_state-any :
    (org_id : ℕ) (now : String) (s : Store)
    → (freeze_state org_id now s).active ≡ any (is_open org_id) s.freezes
unfolding freeze_state
freeze_state-any org_id now s =
    state_of-active (last_where (is_open org_id) s.freezes) now
    ∙ is_some-last_where (is_open org_id) s.freezes

module _ (digest : String → String) (reason_json : String → String) where
  unfoldable pub perform : Op → Store → Store
  unfolding freeze lift_freeze
  perform (stop o actor reason review_by now ts later) s =
      (freeze digest reason_json o actor reason review_by now ts later s).0
  perform (lift o actor reason now ts) s =
      (lift_freeze digest reason_json o actor reason now ts s).0
  perform (log c) s = record s { audit = append digest c s.audit }

  unfoldable pub perform_all : List Op → Store → Store
  perform_all [] s = s
  perform_all (op ∷ rest) s = perform_all rest (perform op s)

  pub record IsSound (s : Store) : Type 0 where
    pub apart : AllApart s.freezes
    pub below : All (λ r. r.id ≤ s.last_freeze) s.freezes
    pub chained : (org_id : ℕ) → IsLinked digest "" (audit_all org_id s.audit)

  log-chained :
      (s : Store) (c : Append) (org_id : ℕ)
      → IsSound s
      → IsLinked digest "" (audit_all org_id (append digest c s.audit))
  log-chained s c org_id h = audit_append-IsLinked digest org_id c s.audit (h.chained org_id)

  add_freeze-IsSound :
      (o : ℕ) (actor reason : String) (review_by : Option String) (now ts : String) (s : Store)
      → IsSound s
      → any (is_open o) s.freezes ≡ false
      → IsSound (add_freeze digest reason_json o actor reason review_by now ts s)
  unfolding add_freeze
  add_freeze-IsSound o actor reason review_by now ts s h e = record {
    apart = AllApart-snoc s.freezes _ s.last_freeze h.apart h.below (omega arith) e;
    below =
        All-snoc (λ r. r.id ≤ s.last_freeze + 1) s.freezes _
          (All_below-suc s.last_freeze s.freezes h.below) (omega arith);
    chained = λ org_id. log-chained s _ org_id h;
  }

  close_freeze-IsSound :
      (o : ℕ) (actor reason now ts : String) (row : FreezeRow) (s : Store)
      → IsSound s
      → IsSound (close_freeze digest reason_json o actor reason now ts row s)
  unfolding close_freeze
  close_freeze-IsSound o actor reason now ts row s h = record {
    apart = closed-AllApart now actor reason o row s.freezes h.apart;
    below = closed-All_below now actor reason o s.last_freeze row s.freezes h.below;
    chained = λ org_id. log-chained s _ org_id h;
  }

  perform-IsSound : (op : Op) (s : Store) → IsSound s → IsSound (perform op s)
  unfolding perform
  perform-IsSound (stop o actor reason review_by now ts later) s h =
      elim (Bool-cases (freeze_state o now s).active) [
        | inl e ↦ rw (e, perform) h
        | inr e ↦
            rw (e, perform)
              (add_freeze-IsSound o actor reason review_by now ts s h
                (sym (freeze_state-any o now s) ∙ e))
      ]
  perform-IsSound (lift o actor reason now ts) s h =
      elim (Option-cases (last_where (is_open o) s.freezes)) [
        | inl e ↦ rw (e, perform) h
        | inr (row, e) ↦ rw (e, perform) (close_freeze-IsSound o actor reason now ts row s h)
      ]
  perform-IsSound (log c) s h = record {
    apart = h.apart;
    below = h.below;
    chained = λ org_id. log-chained s c org_id h;
  }

  -- the effect of one call on one organization
  add_freeze-any :
      (org_id o : ℕ) (actor reason : String) (review_by : Option String) (now ts : String)
      (s : Store)
      → any
          (is_open org_id)
          (add_freeze digest reason_json o actor reason review_by now ts s).freezes
        ≡ (o == org_id || any (is_open org_id) s.freezes)
  unfolding add_freeze
  add_freeze-any org_id o actor reason review_by now ts s =
      any-snoc (is_open org_id) s.freezes _ ∙ ground arith

  close_freeze-any :
      (org_id o : ℕ) (actor reason now ts : String) (row : FreezeRow) (s : Store)
      → IsSound s
      → last_where (is_open o) s.freezes ≡ some row
      → any (is_open org_id) (close_freeze digest reason_json o actor reason now ts row s).freezes
        ≡ (if o == org_id then false else any (is_open org_id) s.freezes)
  unfolding close_freeze
  close_freeze-any org_id o actor reason now ts row s h e = elim (Bool-cases (o == org_id)) [
    | inl same ↦ rw same (
        subst (λ k. any (is_open k) (closed now actor reason row s.freezes) ≡ false)
          ((==_iff o org_id).0 same) (close-any_self now actor reason o row s.freezes h.apart e))
    | inr other ↦ rw other (
        close-any_other now actor reason o org_id row s.freezes
          (λ same. ground (arith, same, other, ==_iff o org_id)) h.apart e)
  ]

  perform-any :
      (org_id : ℕ) (op : Op) (s : Store)
      → IsSound s
      → any (is_open org_id) (perform op s).freezes
        ≡ frozen_after org_id (op ∷ []) (any (is_open org_id) s.freezes)
  unfolding perform frozen_after
  perform-any org_id (stop o actor reason review_by now ts later) s h =
      elim (Bool-cases (freeze_state o now s).active) [
        | inl e ↦
            rw (e, perform) (ground (arith, sym (freeze_state-any o now s) ∙ e, ==_iff o org_id))
        | inr e ↦ rw (e, perform) (add_freeze-any org_id o actor reason review_by now ts s)
      ]
  perform-any org_id (lift o actor reason now ts) s h =
      elim (Option-cases (last_where (is_open o) s.freezes)) [
        | inl e ↦
            rw (e, perform)
              (ground (
                arith,
                sym (is_some-last_where (is_open o) s.freezes) ∙ ap is_some e,
                ==_iff o org_id,
              ))
        | inr (row, e) ↦ rw (e, perform) (close_freeze-any org_id o actor reason now ts row s h e)
      ]
  perform-any org_id (log c) s h = refl

  perform_all-any :
      (org_id : ℕ) (ops : List Op) (s : Store)
      → IsSound s
      → any (is_open org_id) (perform_all ops s).freezes
        ≡ frozen_after org_id ops (any (is_open org_id) s.freezes)
  unfolding perform_all
  perform_all-any org_id [] s h = unfold frozen_after in refl
  perform_all-any org_id (op ∷ rest) s h =
      perform_all-any org_id rest (perform op s) (perform-IsSound op s h)
      ∙ ap (frozen_after org_id rest) (perform-any org_id op s h)
      ∙ frozen_after-cons org_id op rest (any (is_open org_id) s.freezes)

  pub perform_all-IsSound : (ops : List Op) (s : Store) → IsSound s → IsSound (perform_all ops s)
  unfolding perform_all
  perform_all-IsSound [] s h = h
  perform_all-IsSound (op ∷ rest) s h =
      perform_all-IsSound rest (perform op s) (perform-IsSound op s h)

  pub empty-IsSound : IsSound empty_store
  unfolding audit_all events_of
  empty-IsSound = record { apart = tt; below = tt; chained = λ org_id. tt }

  -- Whatever calls are made for any organizations, the state that the store reports for one is the one
  -- that its own freezes and lifts give: frozen from a freeze to the next lift.
  pub freeze_state-frozen_after :
      (org_id : ℕ) (now : String) (ops : List Op)
      → (freeze_state org_id now (perform_all ops empty_store)).active
        ≡ frozen_after org_id ops false
  unfolding any
  freeze_state-frozen_after org_id now ops =
      freeze_state-any org_id now (perform_all ops empty_store)
      ∙ perform_all-any org_id ops empty_store empty-IsSound
