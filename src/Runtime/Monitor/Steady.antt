-- ===== src/Runtime/Monitor/Steady.antt =====
-- `apply_run` of apiverity/runtime/monitor.py on the same findings twice in a row.
use api_verity_lab.Common.{
  String, Bool, true, false, ◌||◌, Option, is_some, List, [], ◌∷◌, ◌≡◌, refl, arith, ==_refl,
  text_ord, nat_ord, if_same, contains, keep, get, put, put_all, get-put, ◌∙◌,
}
use api_verity_lab.Model.Value.{Number}
use api_verity_lab.Model.Operation.{or_else}
use api_verity_lab.Runtime.Monitor.{
  Finding, unobserved_operations, MonitorState, values_of, current_of, apply_observed,
}
use api_verity_lab.Runtime.Monitor.Spec.{
  is_new, is_gone, is_unknown, apply_observed-parts, apply_observed-findings,
}

abbrev Findings : Type 0
Findings = List (String × Finding)

-- every entry passes the test
abbrev AllPass : (String × Finding → Bool) → Findings → Type 0
AllPass test [] = Unit
AllPass test (x ∷ rest) = (test x ≡ true) × AllPass test rest

module _ (test : String × Finding → Bool) where
  put-AllPass :
      (k : String) (f : Finding) (d : Findings)
      → AllPass test d
      → test (k, f) ≡ true
      → AllPass test (put k f d)
  unfolding put
  put-AllPass k f [] h p = (p, tt)
  put-AllPass k f ((j, g) ∷ rest) h p = ground (arith, put-AllPass k f rest h.1 p, h.0)

  put_all-AllPass :
      (d pairs : Findings) → AllPass test d → AllPass test pairs → AllPass test (put_all d pairs)
  unfolding put_all
  put_all-AllPass d [] h p = h
  put_all-AllPass d ((k, f) ∷ rest) h p =
      put_all-AllPass (put k f d) rest (put-AllPass k f d h p.0) p.1

  keep-AllPass :
      (u : String × Finding → Bool) (d : Findings)
      → ((x : String × Finding) → u x ≡ true → test x ≡ true)
      → AllPass test (keep u d)
  unfolding keep
  keep-AllPass u [] h = tt
  keep-AllPass u (x ∷ rest) h = ground (arith, h x, keep-AllPass u rest h)

  keep-nil :
      (u : String × Finding → Bool) (d : Findings)
      → ((x : String × Finding) → test x ≡ true → u x ≡ false)
      → AllPass test d
      → keep u d ≡ []
  unfolding keep
  keep-nil u [] h p = refl
  keep-nil u (x ∷ rest) h p = ground (arith, h x p.0, keep-nil u rest h p.1)

-- the keys of `d` are keys of `e`
keys-AllPass :
    (d e : Findings)
    → ((k : String) → is_some (get k d) ≡ true → is_some (get k e) ≡ true)
    → AllPass (λ kf. is_some (get kf.0 e)) d
unfolding get
keys-AllPass [] e h = tt
keys-AllPass ((k, f) ∷ rest) e h =
    (ground (arith, h k, ==_refl k), keys-AllPass rest e (λ j there. ground (arith, h j, there)))

put_all-knows :
    (k : String) (d pairs : Findings)
    → is_some (get k d) ≡ true
    → is_some (get k (put_all d pairs)) ≡ true
unfolding put_all
put_all-knows k d [] h = h
put_all-knows k d ((j, f) ∷ rest) h =
    put_all-knows k (put j f d) rest (ground (arith, get-put k j f d, h))

module _ (state : MonitorState) (observed : List Finding) (measured again : Option Number) where
  known : Findings
  known = put_all (current_of observed) (
      put_all []
        (keep (is_unknown (current_of observed) (unobserved_operations observed)) state.findings))

  nothing_new : keep (is_new known) (current_of observed) ≡ []
  unfolding known
  nothing_new =
      keep-nil (λ kf. is_some (get kf.0 known)) (is_new known) (current_of observed)
        (λ x h. ground (arith, h))
        (keys-AllPass (current_of observed) known
          (λ k there. put_all-knows k (current_of observed) _ there))

  -- of this run, or of an operation that it did not observe
  abbrev accounted : String × Finding → Bool
  accounted kf =
      is_some (get kf.0 (current_of observed))
      || contains (or_else kf.1.operation_key "") (unobserved_operations observed)

  weaken :
      (d : Findings)
      → AllPass (λ kf. is_some (get kf.0 (current_of observed))) d
      → AllPass accounted d
  weaken [] h = tt
  weaken (x ∷ rest) h = (ground (arith, h.0), weaken rest h.1)

  nothing_gone : keep (is_gone (current_of observed) (unobserved_operations observed)) known ≡ []
  unfolding known
  nothing_gone =
      keep-nil accounted _ known (λ x h. ground (arith, h))
        (put_all-AllPass accounted (current_of observed) _
          (weaken (current_of observed)
            (keys-AllPass (current_of observed) (current_of observed) (λ k there. there)))
          (put_all-AllPass accounted [] _ tt
            (keep-AllPass accounted _ state.findings (λ x h. ground (arith, h)))))

  -- A run that reports the same findings as the run before it moves nothing: nothing appears and
  -- nothing is resolved, whatever both runs measured.
  pub apply_observed-again :
      let after = (apply_observed state observed measured).0 in
      let out = (apply_observed after observed again).1 in (out.appeared ≡ []) × (out.resolved ≡ [])
  unfolding values_of
  apply_observed-again =
      let after = (apply_observed state observed measured).0 in
      let reports = apply_observed-parts after observed again in
      let settled : after.findings ≡ known =
        unfold known in apply_observed-findings state observed measured in
      (
        reports.0 ∙ rw (settled, nothing_new) (if_same _ _),
        reports.1 ∙ rw (settled, nothing_gone) refl,
      )
