-- ===== src/Diff/Facts.antt =====
-- `_diff_schema` of apiverity/diff/engine.py: the comparisons that look at no child of the node.
pub mod Unchanged
use api_verity_lab.Common.{
  String, ◌<>◌, Bool, true, false, not, ◌&&◌, Option, none, some, List, [], ◌∷◌, ◌++◌, ◌==◌,
  text_ord, bool_ord, option_ord, if◌then◌else◌,
}
use api_verity_lab.Model.Value.{Value, null, bool, list, same}
use api_verity_lab.Model.Schema.{Facts}
use api_verity_lab.Diff.Kind.{
  nullability_changed, parameter_type_changed, response_schema_changed, enum_changed,
  parameter_constraint_changed,
}
use api_verity_lab.Diff.Change.{lit, repr, Event, add, raise_type_error}
use api_verity_lab.Diff.Site.{
  Site, is_request, is_response, noted, when, schema_changed, hint, hint_if, opt_text, opt_number,
  opt_bool, values, opt_list,
}
use api_verity_lab.Diff.Enum.{value_difference}

module _ (old new : Facts) (s : Site) where
  default_events : List Event
  default_events =
      when (not (same old.default new.default))
        (record (noted (schema_changed s.direction) s ": default changed "
          (repr old.default ∷ lit " -> " ∷ repr new.default ∷ [])) {
            old_value = old.default;
            new_value = new.default;
            old_location = old.source_location;
            new_location = new.source_location;
            breaking_hint =
                hint_if (same old.default null)
                  "a default introduced where there was none changes behaviour for callers that omit this field";
          })

  nullable_events : List Event
  nullable_events =
      when (not (old.nullable == new.nullable))
        (record (noted nullability_changed s
          (if new.nullable then ": became nullable" else ": is no longer nullable") []) {
            old_value = bool old.nullable;
            new_value = bool new.nullable;
            old_location = old.source_location;
            new_location = new.source_location;
            breaking_hint =
                if new.nullable && is_response s.direction
                then hint
                    "a response value that may now be null breaks every reader that did not check"
                else hint_if (not new.nullable && is_request s.direction)
                    "a request field that may no longer be null rejects payloads that were valid";
          })

  -- f"'{x}'" for an optional text
  abbrev quoted : Option String → String
  quoted none = "'None'"
  quoted (some t) = "'" <> t <> "'"

  type_events : List Event
  type_events =
      when (not (old.type == new.type))
        (record (noted
          (if is_request s.direction then parameter_type_changed else response_schema_changed) s
          (": type changed " <> quoted old.type <> " -> " <> quoted new.type) []) {
            old_value = opt_text old.type;
            new_value = opt_text new.type;
            old_location = old.source_location;
            new_location = new.source_location;
          })

  format_events : List Event
  format_events =
      when (not (old.format == new.format))
        (record (noted parameter_constraint_changed s
          (": format changed " <> quoted old.format <> " -> " <> quoted new.format) []) {
            old_value = opt_text old.format;
            new_value = opt_text new.format;
            old_location = old.source_location;
            new_location = new.source_location;
          })

-- `==` of two lists of values
same_values : List Value → List Value → Bool
same_values [] [] = true
same_values (v ∷ vs) (w ∷ ws) = same v w && same_values vs ws
same_values _ _ = false

same_enum : Option (List Value) → Option (List Value) → Bool
unfolding same_values
same_enum none none = true
same_enum (some vs) (some ws) = same_values vs ws
same_enum _ _ = false

-- enum or []
abbrev pub listed : Option (List Value) → List Value
listed none = []
listed (some vs) = vs

module _ (old new : Facts) (s : Site) where
  enum_change : List Value → List Value → Event
  enum_change removed added =
      add
        (record (noted enum_changed s ": enum changed (removed " (
          repr (list (values removed))
          ∷ lit ", added "
          ∷ repr (list (values added))
          ∷ lit ")"
          ∷ [])) {
            old_value = opt_list old.enum;
            new_value = opt_list new.enum;
            old_location = old.source_location;
            new_location = new.source_location;
            breaking_hint = elim removed [
              | [] ↦ none
              | v ∷ vs ↦ some (lit "enum values removed: " ∷ repr (list (values (v ∷ vs))) ∷ [])
            ];
          })

  -- The differences are sorted before the call is made.
  enum_event : Option (List Value) → Option (List Value) → Event
  unfolding enum_change
  enum_event none added = raise_type_error
  enum_event (some removed) none = raise_type_error
  enum_event (some removed) (some added) = enum_change removed added

  enum_events : List Event
  unfolding same_enum enum_event
  enum_events =
      let before = listed old.enum in
      let after = listed new.enum in
      if same_enum old.enum new.enum
      then []
      else enum_event (value_difference before after) (value_difference after before) ∷ []

-- `_CONSTRAINT_ATTRS`, each with the attribute's value
constraint_attrs : Facts → List (String × Value)
constraint_attrs f =
    ("const", f.const)
    ∷ ("minimum", opt_number f.minimum)
    ∷ ("maximum", opt_number f.maximum)
    ∷ ("exclusive_minimum", opt_number f.exclusive_minimum)
    ∷ ("exclusive_maximum", opt_number f.exclusive_maximum)
    ∷ ("multiple_of", opt_number f.multiple_of)
    ∷ ("min_length", opt_number f.min_length)
    ∷ ("max_length", opt_number f.max_length)
    ∷ ("pattern", opt_text f.pattern)
    ∷ ("min_items", opt_number f.min_items)
    ∷ ("max_items", opt_number f.max_items)
    ∷ ("unique_items", opt_bool f.unique_items)
    ∷ ("min_properties", opt_number f.min_properties)
    ∷ ("max_properties", opt_number f.max_properties)
    ∷ []

module _ (old new : Facts) (s : Site) where
  constraint_event : String → Value → Value → List Event
  constraint_event attr before after =
      when (not (same before after))
        (record (noted parameter_constraint_changed s (": constraint '" <> attr <> "' changed ")
          (repr before ∷ lit " -> " ∷ repr after ∷ [])) {
            old_value = before;
            new_value = after;
            old_location = old.source_location;
            new_location = new.source_location;
          })

  -- the two lists name the same attributes in the same order
  constraint_loop : List (String × Value) → List (String × Value) → List Event
  unfolding constraint_event
  constraint_loop ((attr, before) ∷ rest) ((_, after) ∷ rest') =
      constraint_event attr before after ++ constraint_loop rest rest'
  constraint_loop _ _ = []

  constraint_events : List Event
  unfolding constraint_loop constraint_attrs
  constraint_events = constraint_loop (constraint_attrs old) (constraint_attrs new)

  -- What `_diff_schema` compares before it looks at the properties.
  unfoldable pub facts_events : List Event
  unfolding default_events nullable_events type_events format_events enum_events constraint_events
  facts_events =
      default_events old new s
      ++ nullable_events old new s
      ++ type_events old new s
      ++ format_events old new s
      ++ enum_events old new s
      ++ constraint_events
