-- ===== src/Server/Decision.antt =====
-- can-i-deploy, `compute_can_i_deploy` of apiverity/server/decision.py.
pub mod Gate
use api_verity_lab.Common.{
  ℕ, ◌+◌, String, ◌<>◌, Bool, true, false, not, ◌&&◌, Option, none, some, List, [], ◌∷◌, ◌==◌, ◌≡◌,
  refl, sym, ap, ◌∙◌, arith, nat_ord, text_ord, option_ord, keep, any, length, sorted_set, map,
  if◌then◌else◌, Bool-cases, inl, inr,
}
use api_verity_lab.Common.Text.{print, is_empty}
use api_verity_lab.Model.Repr.{repr_text}
use api_verity_lab.Server.Runs.{Run}
use api_verity_lab.Server.Freeze.{FreezeState, Store, empty_store, freeze_state}
use api_verity_lab.Server.Freeze.Spec.{Op, perform_all, frozen_after, freeze_state-frozen_after}

-- a row of contracts, as list_contracts gives it
pub record Contract : Type 0 where
  pub org_id : ℕ
  pub title : String
  pub version : String

-- `environment` is "" where the body has none.
pub record Query : Type 0 where
  pub provider : String
  pub provider_version : String
  pub environment : String

pub record Decision : Type 0 where
  pub deployable : Bool
  pub reason : String
  pub frozen : Option FreezeState
  pub verified_by : Option (List String)

-- f"{prefix}{value}" if value else ""
unfoldable pub suffix : String → Option String → String
unfolding is_empty
suffix prefix none = ""
suffix prefix (some s) = if is_empty s then "" else prefix <> s

-- FreezeState.refusal
unfoldable pub refusal : FreezeState → String
unfolding suffix
refusal s =
    "deployments are frozen"
    <> (suffix " by " s.actor <> (suffix " since " s.since <> suffix ": " s.reason))

-- WHERE org_id = ? and, if title, AND title = ?
abbrev pub is_listed : ℕ → String → Contract → Bool
is_listed org_id title c = c.org_id == org_id && (if is_empty title then true else c.title == title)

abbrev pub is_target : Query → Contract → Bool
is_target q c = c.version == q.provider_version

-- f"{provider}@{version}"
abbrev pub target_name : Query → String
target_name q = q.provider <> ("@" <> q.provider_version)

abbrev pub is_verification : ℕ → Query → Run → Bool
is_verification org_id q r =
    r.org_id == org_id
    && r.verification_for == some (target_name q)
    && r.environment == some q.environment
    && r.status == "passed"

abbrev pub refused : String → Decision
refused reason = record { deployable = false; reason = reason; frozen = none; verified_by = none }

unfoldable pub decide : Query → List Run → Decision
decide q [] =
    refused
      ("no passed verification of " <> (target_name q <> (" against " <> repr_text q.environment)))
decide q (r ∷ rest) = record {
  deployable = true;
  reason = print (length (r ∷ rest)) <> " passed verification(s) recorded";
  frozen = none;
  verified_by = some (sorted_set (map (λ x. x.requested_by) (r ∷ rest)));
}

unfoldable pub compute_can_i_deploy : FreezeState → List Contract → List Run → ℕ → Query → Decision
unfolding decide refusal
compute_can_i_deploy state contracts runs org_id q =
    if state.active
    then record {
      deployable = false;
      reason = refusal state;
      frozen = some state;
      verified_by = none;
    }
    else if not (any (is_target q) (keep (is_listed org_id q.provider) contracts))
    then refused (target_name q <> " has never been published")
    else decide q (keep (is_verification org_id q) runs)
