-- ===== src/Diff/Members.antt =====
-- `_diff_schema` of apiverity/diff/engine.py: properties that came and went, the `required` lists and
-- the discriminator.
pub mod Unchanged
use api_verity_lab.Common.{
  String, ◌<>◌, Bool, true, false, not, ◌&&◌, ◌||◌, Option, none, some, List, [], ◌∷◌, ◌++◌,
  text_ord, if◌then◌else◌, is_some, contains, only_in, in_both, keys, get,
}
use api_verity_lab.Model.Value.{Value, null, bool, text, same}
use api_verity_lab.Model.Schema.{
  SourceLocation, Discriminator, SchemaNode, Branch, absent, present, facts, properties, names,
  get_field,
}
use api_verity_lab.Diff.Kind.{
  parameter_removed, parameter_added, parameter_requiredness, response_schema_changed,
}
use api_verity_lab.Diff.Change.{lit, repr, Event, add}
use api_verity_lab.Diff.Site.{
  Site, is_request, is_response, noted, when, schema_changed, hint, hint_if, each,
}

-- the source location of a child that is there
abbrev location_of : Branch → Option SourceLocation
location_of absent = none
location_of (present child) = (facts child).source_location

module _ (old new : SchemaNode) (s : Site) where
  removed_property : String → List Event
  removed_property prop =
      add
        (record (noted
          (if is_request s.direction then parameter_removed else response_schema_changed) s
          (": field '" <> prop <> "' was removed") []) {
            old_location = location_of (get_field prop (properties old));
            breaking_hint = hint (
                "field '"
                <> prop
                <> "' removed from "
                <> (if is_request s.direction then "request" else "response")
                <> ": "
                <> (if is_request s.direction
                    then "clients sending it may be rejected"
                    else "clients reading it will break"));
          })
      ∷ []

  added_property : String → List Event
  added_property prop =
      let required = contains prop (facts new).required in
      add
        (record (noted (if is_request s.direction then parameter_added else response_schema_changed)
          s (": field '" <> prop <> "' was added" <> (if required then " (required)" else "")) []) {
            new_location = location_of (get_field prop (properties new));
            breaking_hint =
                hint_if (is_request s.direction && required)
                  ("required field '" <> prop <> "' added to request: existing clients fail");
          })
      ∷ []

  unfoldable pub property_events : List Event
  unfolding removed_property added_property
  property_events =
      each removed_property (only_in (names (properties old)) (names (properties new)))
      ++ each added_property (only_in (names (properties new)) (names (properties old)))

  -- prop in old.properties and prop in new.properties
  abbrev on_both_sides : String → Bool
  on_both_sides prop =
      contains prop (names (properties old)) && contains prop (names (properties new))

  became_required : String → List Event
  became_required prop =
      when (on_both_sides prop)
        (record (noted parameter_requiredness s (": field '" <> prop <> "' became required") []) {
          old_value = bool false;
          new_value = bool true;
          new_location = location_of (get_field prop (properties new));
          breaking_hint =
              hint_if (is_request s.direction)
                ("required field '" <> prop <> "' added: existing clients omitting it fail");
        })

  became_optional : String → List Event
  became_optional prop =
      when (on_both_sides prop)
        (record (noted parameter_requiredness s (": field '" <> prop <> "' became optional") []) {
          old_value = bool true;
          new_value = bool false;
          old_location = location_of (get_field prop (properties old));
          breaking_hint = hint_if (is_response s.direction) (
              "field '" <> prop
              <> "' is no longer guaranteed in the response; consumers reading it unconditionally will break");
        })

  unfoldable pub required_events : List Event
  unfolding became_required became_optional
  required_events =
      each became_required (only_in (facts new).required (facts old).required)
      ++ each became_optional (only_in (facts old).required (facts new).required)

-- disc.get("propertyName"), disc.get("mapping") of `discriminator or {}`
abbrev property_of : Option Discriminator → Value
property_of none = null
property_of (some d) = d.property_name

abbrev mapping_of : Option Discriminator → List (String × Value)
mapping_of none = []
mapping_of (some d) = d.mapping

module _ (old new : Option Discriminator) (s : Site) where
  abbrev old_map : List (String × Value)
  old_map = mapping_of old

  abbrev new_map : List (String × Value)
  new_map = mapping_of new

  discriminator_property : List Event
  discriminator_property =
      when (not (same (property_of old) (property_of new)))
        (record (noted (schema_changed s.direction) s ": discriminator property changed "
          (repr (property_of old) ∷ lit " -> " ∷ repr (property_of new) ∷ [])) {
            old_value = property_of old;
            new_value = property_of new;
            breaking_hint =
                hint
                  "clients branch on the discriminator property; renaming it breaks every consumer that deserializes this type";
          })

  mapping_removed : String → List Event
  mapping_removed key =
      add
        (record (noted (schema_changed s.direction) s ": discriminator mapping removed "
          (repr (text key) ∷ [])) {
            old_value = text key;
            breaking_hint = some (
                lit "variant "
                ∷ repr (text key)
                ∷ lit (
                    if is_request s.direction
                    then " can no longer be resolved; senders using it are rejected"
                    else " was withdrawn from the response contract")
                ∷ []);
          })
      ∷ []

  mapping_added : String → List Event
  mapping_added key =
      add
        (record (noted (schema_changed s.direction) s ": discriminator mapping added "
          (repr (text key) ∷ [])) {
            new_value = text key;
            breaking_hint =
                if is_response s.direction
                then some (
                    lit "new response variant "
                    ∷ repr (text key)
                    ∷ lit
                        ": consumers with an exhaustive switch over the previous variants will not handle it"
                    ∷ [])
                else none;
          })
      ∷ []

  mapping_pair : String → Option Value → Option Value → List Event
  mapping_pair key (some before) (some after) =
      when (not (same before after))
        (record (noted (schema_changed s.direction) s ": discriminator " (
          repr (text key)
          ∷ lit " now maps to "
          ∷ repr after
          ∷ lit " (was "
          ∷ repr before
          ∷ lit ")"
          ∷ [])) {
            old_value = before;
            new_value = after;
            breaking_hint = some (
                lit "the same discriminator value "
                ∷ repr (text key)
                ∷ lit " now selects a different schema; clients deserialize into the wrong type"
                ∷ []);
          })
  mapping_pair key _ _ = []

  mapping_changed : String → List Event
  unfolding mapping_pair
  mapping_changed key = mapping_pair key (get key old_map) (get key new_map)

  unfoldable pub discriminator_events : List Event
  unfolding discriminator_property mapping_removed mapping_added mapping_changed
  discriminator_events =
      if is_some old || is_some new
      then discriminator_property
        ++ each mapping_removed (only_in (keys old_map) (keys new_map))
        ++ each mapping_added (only_in (keys new_map) (keys old_map))
        ++ each mapping_changed (in_both (keys old_map) (keys new_map))
      else []
