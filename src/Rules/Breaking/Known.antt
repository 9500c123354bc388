-- ===== src/Rules/Breaking/Known.antt =====
-- Every rule that apiverity/rules/breaking.py gives to a change is in its catalog.
use api_verity_lab.Common.{
  String, Bool, true, false, ◌&&◌, Option, none, some, is_some, List, [], ◌∷◌, ◌≡◌, refl, arith,
  ◌==◌, text_ord, pair_ord, if◌then◌else◌, get, Ord,
}
use api_verity_lab.Model.Value.{Value, Values, Members, text, bool_eq, truthy, get_member}
use api_verity_lab.Diff.Kind.{
  ChangeKind, tool_output_schema_changed, tool_annotation_changed, stream_shape_changed,
  oneof_membership_changed, request_schema_changed, response_schema_changed, parameter_removed,
  parameter_added, parameter_requiredness, parameter_type_changed, parameter_constraint_changed,
  nullability_changed, enum_changed, dependent_required_changed,
}
use api_verity_lab.Common.Text.{includes}
use api_verity_lab.Diff.Change.{Direction, Change}
use api_verity_lab.Diff.Site.{is_request}
use api_verity_lab.Rules.Wording.{rendered}
use api_verity_lab.Rules.Catalog.{catalog}
use api_verity_lab.Rules.Constraints.{
  pick, constraint_rule, items_of, members_of, is_true, has_other,
}
use api_verity_lab.Rules.Breaking.{
  annotation_rules, transition_rule, annotation_rule, stream_rule, parameter_added_rule,
  requiredness_rule, nullability_rule, enum_rule, request_schema_rule, response_schema_rule,
  rule_for, rule_of,
}

-- the rule is in the catalog
abbrev pub Listed : String → Type 0
Listed rule = is_some (get rule catalog) ≡ true

-- the rule, if there is one, is in the catalog
unfoldable pub known : Option String → Bool
known none = true
known (some rule) = is_some (get rule catalog)

known-pick : (b : Bool) (r s : String) → Listed r → Listed s → known (pick b r s) ≡ true
unfolding known
known-pick true r s hr hs = hr
known-pick false r s hr hs = hs

-- every rule of a table is in the catalog
all_known {ℓ} : {K : Type ℓ} → List (K × String) → Bool
all_known [] = true
all_known ((k, rule) ∷ rest) = is_some (get rule catalog) && all_known rest

known_if :
    (b : Bool) (r : String) (o : Option String)
    → Listed r
    → known o ≡ true
    → known (if b then some r else o) ≡ true
unfolding known
known_if true r o hr ho = hr
known_if false r o hr ho = ho

both_true : (b c : Bool) → (b && c) ≡ true → (b ≡ true) × (c ≡ true)
both_true true c h = (refl, h)
both_true false c h = cc

table_known {ℓ} :
    {K : Type ℓ} ⦃o : Ord K⦄ (k : K) (d : List (K × String))
    → all_known d ≡ true
    → known (get k d) ≡ true
unfolding all_known get
table_known k [] h = unfold known in refl
table_known k ((j, rule) ∷ rest) h =
    let (first, others) = both_true _ (all_known rest) h in
    known_if (j == k) rule (get k rest) first (table_known k rest others)

annotation_rules_all : all_known annotation_rules ≡ true
unfolding all_known annotation_rules get catalog
annotation_rules_all = refl

transition_rule_rules : Listed "BRK-MCP-ANNOTATION-DECLARATION-CHANGED"
unfolding get catalog
transition_rule_rules = refl

transition_rule-known :
    (v : Value) (before after : Bool) → known (transition_rule v before after) ≡ true
unfolding transition_rule known
transition_rule-known (text hint) before after = ground (
  arith,
  transition_rule_rules,
  table_known (hint, "set") annotation_rules annotation_rules_all,
  table_known (hint, "cleared") annotation_rules annotation_rules_all,
)
transition_rule-known _ before after = refl

constraint_rule_rules :
    Listed "BRK-PARAM-TYPE-CHANGED"
    × Listed "BRK-RESP-TYPE-CHANGED"
    × Listed "BRK-CONSTRAINT-TIGHTENED"
    × Listed "BRK-RESP-CONSTRAINT-TIGHTENED"
    × Listed "BRK-CONSTRAINT-LOOSENED"
    × Listed "BRK-RESP-CONSTRAINT-LOOSENED"
unfolding get catalog
constraint_rule_rules = (refl, refl, refl, refl, refl, refl)

constraint_rule-known :
    (d : Direction) (desc : String) (old new : Value)
    → known (constraint_rule d desc old new) ≡ true
unfolding constraint_rule known
constraint_rule-known d desc old new = ground (arith, constraint_rule_rules)

stream_rule_rules :
    Listed "BRK-STREAM-SEQUENTIAL-CHANGED"
    × Listed "BRK-STREAM-ITEM-SCHEMA-REMOVED"
    × Listed "BRK-STREAM-ITEM-SCHEMA-ADDED"
    × Listed "BRK-STREAM-PREFIX-COUNT-CHANGED"
    × Listed "BRK-STREAM-ENCODING-CHANGED"
unfolding get catalog
stream_rule_rules = (refl, refl, refl, refl, refl)

stream_rule-known : (desc : String) → known (some (stream_rule desc)) ≡ true
unfolding stream_rule known
stream_rule-known desc = ground (arith, stream_rule_rules)

parameter_added_rule_rules :
    Listed "BRK-REQ-FIELD-ADDED-REQUIRED"
    × Listed "BRK-REQ-FIELD-ADDED-OPTIONAL"
    × Listed "BRK-PARAM-ADDED-REQUIRED"
    × Listed "BRK-PARAM-ADDED-OPTIONAL"
unfolding get catalog
parameter_added_rule_rules = (refl, refl, refl, refl)

parameter_added_rule-known : (desc : String) → known (parameter_added_rule desc) ≡ true
unfolding parameter_added_rule known
parameter_added_rule-known desc = ground (arith, parameter_added_rule_rules)

requiredness_rule_rules :
    Listed "BRK-RESP-FIELD-GUARANTEED"
    × Listed "BRK-RESP-FIELD-OPTIONALIZED"
    × Listed "BRK-REQ-FIELD-BECAME-REQUIRED"
    × Listed "BRK-REQ-FIELD-OPTIONALIZED"
    × Listed "BRK-PARAM-REQUIRED"
    × Listed "BRK-PARAM-OPTIONALIZED"
unfolding get catalog
requiredness_rule_rules = (refl, refl, refl, refl, refl, refl)

requiredness_rule-known :
    (d : Direction) (desc : String) (became : Bool) → known (requiredness_rule d desc became) ≡ true
unfolding requiredness_rule known
requiredness_rule-known d desc became = ground (arith, requiredness_rule_rules)

nullability_rule_rules :
    Listed "BRK-REQ-NULLABLE-ADDED"
    × Listed "BRK-REQ-NULLABLE-REMOVED"
    × Listed "BRK-RESP-NULLABLE-ADDED"
    × Listed "BRK-RESP-NULLABLE-REMOVED"
unfolding get catalog
nullability_rule_rules = (refl, refl, refl, refl)

nullability_rule-known : (sent became : Bool) → known (nullability_rule sent became) ≡ true
unfolding nullability_rule known
nullability_rule-known sent became = ground (arith, nullability_rule_rules)

enum_rule_rules :
    Listed "BRK-ENUM-NARROWED-REQUEST"
    × Listed "BRK-ENUM-NARROWED-RESPONSE"
    × Listed "BRK-ENUM-WIDENED"
unfolding get catalog
enum_rule_rules = (refl, refl, refl)

enum_rule-known : (sent : Bool) (old new : Values) → known (enum_rule sent old new) ≡ true
unfolding enum_rule known
enum_rule-known sent old new = ground (arith, enum_rule_rules)

request_schema_rule_rules :
    Listed "BRK-FIELD-NUMBER-UNRESERVED"
    × Listed "BRK-REQ-BODY-REMOVED"
    × Listed "BRK-REQ-BODY-REQUIRED"
    × Listed "BRK-REQ-BODY-ADDED-REQUIRED"
    × Listed "BRK-REQ-BODY-ADDED-OPTIONAL"
unfolding get catalog
request_schema_rule_rules = (refl, refl, refl, refl, refl)

request_schema_rule-known : (desc : String) → known (request_schema_rule desc) ≡ true
unfolding request_schema_rule known
request_schema_rule-known desc = ground (arith, request_schema_rule_rules)

response_schema_rule_rules :
    Listed "BRK-FIELD-NUMBER-UNRESERVED"
    × Listed "BRK-RESP-FIELD-REMOVED"
    × Listed "BRK-RESP-FIELD-ADDED"
    × Listed "BRK-MEDIA-TYPE-CHANGED"
    × Listed "BRK-RESP-TYPE-CHANGED"
unfolding get catalog
response_schema_rule_rules = (refl, refl, refl, refl, refl)

response_schema_rule-known : (desc : String) → known (response_schema_rule desc) ≡ true
unfolding response_schema_rule known
response_schema_rule-known desc = ground (arith, response_schema_rule_rules)

annotation_rule-known : (old new : Members) → known (annotation_rule old new) ≡ true
unfolding annotation_rule
annotation_rule-known old new =
    let named = get_member "annotation" old in
    transition_rule-known (if truthy named then named else get_member "annotation" new)
      (is_true (get_member "value" old)) (is_true (get_member "value" new))

rule_for-known :
    (kind : ChangeKind) (d : Direction) (desc : String) (old new : Value)
    → known (rule_for kind d desc old new) ≡ true
unfolding rule_for known get catalog
rule_for-known tool_output_schema_changed d desc old new =
    known-pick (truthy new) "BRK-MCP-OUTPUT-SCHEMA-ADDED" "BRK-MCP-OUTPUT-SCHEMA-REMOVED" refl refl
rule_for-known tool_annotation_changed d desc old new =
    annotation_rule-known (members_of old) (members_of new)
rule_for-known stream_shape_changed d desc old new = stream_rule-known desc
rule_for-known oneof_membership_changed d desc old new =
    known-pick (includes "moved into" desc) "BRK-ONEOF-NARROWED" "BRK-ONEOF-WIDENED" refl refl
rule_for-known request_schema_changed d desc old new = request_schema_rule-known desc
rule_for-known response_schema_changed d desc old new = response_schema_rule-known desc
rule_for-known parameter_removed d desc old new =
    known-pick (includes "field '" desc) "BRK-REQ-FIELD-REMOVED" "BRK-PARAM-REMOVED" refl refl
rule_for-known parameter_added d desc old new = parameter_added_rule-known desc
rule_for-known parameter_requiredness d desc old new = requiredness_rule-known d desc _
rule_for-known parameter_type_changed d desc old new =
    known-pick (is_request d) "BRK-PARAM-TYPE-CHANGED" "BRK-RESP-TYPE-CHANGED" refl refl
rule_for-known parameter_constraint_changed d desc old new = constraint_rule-known d desc old new
rule_for-known nullability_changed d desc old new = nullability_rule-known _ _
rule_for-known enum_changed d desc old new = enum_rule-known _ _ _
rule_for-known dependent_required_changed d desc old new =
    known-pick (bool_eq (has_other (items_of new) (items_of old)) (is_request d))
      "BRK-DEPENDENT-REQUIRED-ADDED" "BRK-DEPENDENT-REQUIRED-REMOVED" refl refl
rule_for-known _ d desc old new = refl

pub rule_of-known : (c : Change) → known (rule_of c) ≡ true
unfolding rule_of
rule_of-known c = rule_for-known c.kind c.direction (rendered c.description) c.old_value c.new_value
