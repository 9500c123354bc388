-- ===== src/Tests/Diffs.antt =====
-- The theorems on `DiffEngine` (apiverity/diff/engine.py) at small contracts.
use api_verity_lab.Common.{
  ◌↔◌, String, true, false, some, List, [], ◌∷◌, ◌≡◌, refl, arith, ◌∙◌, ◌==◌, ==_iff, text_ord, get,
  put, put_all, dict_of,
}
use api_verity_lab.Common.Text.{upper, is_empty}
use api_verity_lab.Common.Text.Dashes.{dashless}
use api_verity_lab.Model.Value.{get_member, dict_or_empty}
use api_verity_lab.Model.Operation.{key}
use api_verity_lab.Diff.Kind.{operation_removed, description_changed}
use api_verity_lab.Diff.Change.{Call, plain, meta, Event, add, Engine, fresh, perform, add_change}
use api_verity_lab.Diff.Run.{by_key, run}
use api_verity_lab.Diff.Run.Unchanged.{is_one_page, run_self}
use api_verity_lab.Diff.Run.Silent.{IsSilent, run-silent}
use api_verity_lab.Diff.Run.Order.{SameByKey, run-operations_order}
use api_verity_lab.Diff.Site.{Site}
use api_verity_lab.Diff.Schema.Unchanged.{diff_schema_self}
use api_verity_lab.Diff.Schema.{diff_schema}
use api_verity_lab.Diff.Operations.{diff_operation}
use api_verity_lab.Diff.Operations.Unchanged.{diff_operation_self}
use api_verity_lab.Diff.Ids.{AllDistinct, ids, perform-AllDistinct}
use api_verity_lab.Tests.Data.{
  pet, list_pets, create_pet, shop, turned, digest, body_json, response_json,
}

shop-whole : is_one_page shop ≡ false
unfolding is_one_page get_member dict_or_empty
shop-whole = refl

run_self_example : run digest body_json response_json shop shop ≡ some []
run_self_example = run_self digest body_json response_json shop shop-whole

list_key : key list_pets ≡ "GET /pets"
unfolding key upper is_empty
list_key = refl

create_key : key create_pet ≡ "POST /pets"
unfolding key upper is_empty
create_key = refl

other_key : (key list_pets == key create_pet) ≡ false
unfolding key upper is_empty
other_key = refl

turned-SameByKey : SameByKey turned.operations shop.operations
unfolding by_key dict_of put_all put get
turned-SameByKey k = ground (
  arith,
  other_key,
  ==_iff (key list_pets) k,
  ==_iff (key create_pet) k,
  ==_iff (key list_pets) (key create_pet),
  ==_iff (key create_pet) (key list_pets),
)

shop-SameByKey : SameByKey shop.operations shop.operations
shop-SameByKey k = refl

run-operations_order_example :
    run digest body_json response_json turned shop ≡ run digest body_json response_json shop shop
run-operations_order_example =
    run-operations_order digest body_json response_json shop shop turned.operations shop.operations
      turned-SameByKey shop-SameByKey refl

-- The shop listed the other way round, and the shop.
run-silent_example :
    (run digest body_json response_json turned shop ≡ some [])
    ↔ IsSilent digest body_json response_json turned shop
run-silent_example = run-silent digest body_json response_json turned shop

turned_shop-IsSilent : IsSilent digest body_json response_json turned shop
turned_shop-IsSilent = (run-silent digest body_json response_json turned shop).0 (
    run-operations_order digest body_json response_json shop shop turned.operations shop.operations
      turned-SameByKey shop-SameByKey refl
    ∙ run_self digest body_json response_json shop shop-whole)

diff_operation_self_example :
    diff_operation ("api_key" ∷ []) ("api_key" ∷ []) list_pets list_pets ≡ []
diff_operation_self_example = diff_operation_self ("api_key" ∷ []) list_pets

abbrev pet_site : Site
pet_site = record {
  operation_key = "GET /pets";
  place = "response 200 body";
  direction = meta;
  path = "";
}

diff_schema_self_example : diff_schema pet pet pet_site ≡ []
diff_schema_self_example = diff_schema_self pet pet_site

-- three calls, of which the first and the last have one scope
abbrev removal : Call
removal = plain operation_removed "GET /pets" meta []

abbrev version_change : Call
version_change = plain description_changed "(service)" meta []

abbrev three_events : List Event
three_events = add removal ∷ add version_change ∷ add removal ∷ []

digest-dashless : (s : String) → dashless (digest s) ≡ true
unfolding dashless
digest-dashless s = refl

abbrev after_three : Engine
after_three =
    add_change digest (add_change digest (add_change digest fresh removal) version_change) removal

performed : perform digest fresh three_events ≡ some after_three
unfolding perform
performed = refl

perform-AllDistinct_example : AllDistinct (ids after_three.changes)
perform-AllDistinct_example =
    perform-AllDistinct digest digest-dashless three_events after_three performed
