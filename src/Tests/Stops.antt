-- ===== src/Tests/Stops.antt =====
-- The emergency stop, the deploy decision and the roles of apiverity/server.
use api_verity_lab.Common.{
  String, true, false, not, ◌&&◌, none, some, List, [], ◌∷◌, ◌≡◌, refl, any, nat_ord, text_ord,
}
use api_verity_lab.Tests.Data.{digest}
use api_verity_lab.Server.Runs.{Run, queued_run}
use api_verity_lab.Server.Freeze.{empty_store, freeze_state}
use api_verity_lab.Server.Freeze.Spec.{
  Op, stop, lift, perform_all, frozen_after, freeze_state-frozen_after,
}
use api_verity_lab.Server.Decision.{
  Contract, Query, is_listed, is_target, is_verification, compute_can_i_deploy,
}
use api_verity_lab.Server.Decision.Gate.{compute_can_i_deploy-frozen_after}

abbrev reason_json : String → String
reason_json reason = reason

abbrev ops : List Op
ops =
    stop 1 "ann" "incident" none "10:00" "10:00" "10:00"
    ∷ stop 2 "bob" "audit" none "10:01" "10:01" "10:01"
    ∷ lift 1 "ann" "over" "10:02" "10:02"
    ∷ []

freeze_state-frozen_after_example :
    (freeze_state 2 "11:00" (perform_all digest reason_json ops empty_store)).active
    ≡ frozen_after 2 ops false
freeze_state-frozen_after_example = freeze_state-frozen_after digest reason_json 2 "11:00" ops

still_frozen : frozen_after 2 ops false ≡ true
unfolding frozen_after
still_frozen = refl

abbrev query : Query
query = record { provider = "pets"; provider_version = "1.0.0"; environment = "production" }

abbrev contracts : List Contract
contracts = record { org_id = 1; title = "pets"; version = "1.0.0" } ∷ []

abbrev runs : List Run
runs =
    record (queued_run 1 1 "verify" "shop" (some "pets@1.0.0") (some "production") none "10:00") {
      status = "passed";
    }
    ∷ []

compute_can_i_deploy-frozen_after_example :
    (compute_can_i_deploy
      (freeze_state 1 "11:00" (perform_all digest reason_json ops empty_store))
      contracts
      runs
      1
      query).deployable
    ≡ (not (frozen_after 1 ops false)
        && (any (λ c. is_listed 1 "pets" c && is_target query c) contracts
            && any (is_verification 1 query) runs))
compute_can_i_deploy-frozen_after_example =
    compute_can_i_deploy-frozen_after digest reason_json ops "11:00" contracts runs 1 query
