-- ===== src/Server/Decision/Gate.antt =====
-- What deployable means in `compute_can_i_deploy` of apiverity/server/decision.py, over the store.
use api_verity_lab.Common.{
  ℕ, String, Bool, false, not, ◌&&◌, List, [], ◌∷◌, ◌≡◌, refl, arith, nat_ord, text_ord, option_ord,
  keep, any,
}
use api_verity_lab.Server.Runs.{Run}
use api_verity_lab.Server.Freeze.{empty_store, freeze_state}
use api_verity_lab.Server.Freeze.Spec.{Op, perform_all, frozen_after, freeze_state-frozen_after}
use api_verity_lab.Server.Decision.{
  Contract, Query, is_listed, is_target, is_verification, decide, compute_can_i_deploy,
}

keep-any {ℓ} :
    {A : Type ℓ} (s t : A → Bool) (xs : List A) → any s (keep t xs) ≡ any (λ x. t x && s x) xs
unfolding any keep
keep-any s t [] = refl
keep-any s t (x ∷ xs) = ground (arith, keep-any s t xs)

decide-any :
    (q : Query) (org_id : ℕ) (runs : List Run)
    → (decide q (keep (is_verification org_id q) runs)).deployable
      ≡ any (is_verification org_id q) runs
unfolding decide any keep
decide-any q org_id [] = refl
decide-any q org_id (r ∷ runs) = ground (arith, decide-any q org_id runs)

-- After any calls that freeze, lift or append, a version is deployable for an organization just when
-- the organization is not frozen by them, a contract with the version is published under the provider
-- that is asked for (under any title if that is empty), and some verification run of the version
-- for the environment passed, of whatever consumer contract and however old.
pub compute_can_i_deploy-frozen_after :
    (digest : String → String) (reason_json : String → String) (ops : List Op) (now : String)
    (contracts : List Contract) (runs : List Run) (org_id : ℕ) (q : Query)
    → (compute_can_i_deploy
        (freeze_state org_id now (perform_all digest reason_json ops empty_store))
        contracts
        runs
        org_id
        q).deployable
      ≡ (not (frozen_after org_id ops false)
          && (any (λ c. is_listed org_id q.provider c && is_target q c) contracts
              && any (is_verification org_id q) runs))
unfolding compute_can_i_deploy
compute_can_i_deploy-frozen_after digest reason_json ops now contracts runs org_id q = ground (
  arith,
  freeze_state-frozen_after digest reason_json org_id now ops,
  keep-any (is_target q) (is_listed org_id q.provider) contracts,
  decide-any q org_id runs,
)
