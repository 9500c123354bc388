-- ===== src/Diff/Protobuf.antt =====
-- `_wire_shape` and `_diff_protobuf_schema` of apiverity/diff/engine.py.
pub mod Unchanged
use api_verity_lab.Common.{
  ℕ, String, ◌<>◌, true, false, not, Option, none, some, List, [], ◌∷◌, ◌++◌, ◌==◌, text_ord,
  nat_ord, option_ord, if◌then◌else◌, contains, only_in, in_both, keys, get, dict_of,
}
use api_verity_lab.Common.Text.{print}
use api_verity_lab.Model.Value.{bool, text}
use api_verity_lab.Model.Schema.{
  SchemaNode, Parts, Branch, absent, present, node, parts, facts, properties, names, get_field,
}
use api_verity_lab.Diff.Kind.{
  field_number_reused, field_presence_changed, oneof_membership_changed, reservation_changed,
}
use api_verity_lab.Diff.Change.{Event, add}
use api_verity_lab.Diff.Site.{Site, noted, when, schema_changed, hint, nat, each}
use api_verity_lab.Model.Operation.{or_else}

mutual
  wire_shape : SchemaNode → String
  wire_shape (node f p) =
      let repeated = wire_items p in
      let plain = or_else f.format (or_else f.type "unknown") in
      if f.type == some "array"
      then elim repeated [ none ↦ plain | some shape ↦ "repeated " <> shape ]
      else plain

  wire_items : Parts → Option String
  wire_items (parts p q d a i n c b f t e o y l x) = wire_branch i

  wire_branch : Branch → Option String
  wire_branch absent = none
  wire_branch (present s) = some (wire_shape s)

-- _wire_shape(properties.get(name))
field_shape : Branch → String
unfolding wire_shape
field_shape b = elim (wire_branch b) [ none ↦ "unknown" | some shape ↦ shape ]

-- [(f, g) for g, fs in oneofs.items() for f in fs]
members_of : String → List String → List (String × String)
members_of g [] = []
members_of g (f ∷ fs) = (f, g) ∷ members_of g fs

oneof_pairs : List (String × List String) → List (String × String)
unfolding members_of
oneof_pairs [] = []
oneof_pairs ((g, fs) ∷ rest) = members_of g fs ++ oneof_pairs rest

-- `d[k]` at a key that is there
abbrev name_at : Option String → String
name_at none = ""
name_at (some s) = s

module _ (old new : SchemaNode) (s : Site) where
  -- a number on both sides
  field_renumbered : ℕ → List Event
  unfolding field_shape
  field_renumbered number =
      let was = name_at (get number (facts old).field_numbers) in
      let now = name_at (get number (facts new).field_numbers) in
      let old_type = field_shape (get_field was (properties old)) in
      let new_type = field_shape (get_field now (properties new)) in
      if was == now
      then []
      else if old_type == new_type
      then add
          (record (noted (schema_changed s.direction) s
            (": field "
              <> print number
              <> " renamed from '"
              <> was
              <> "' to '"
              <> now
              <> "' (same type, wire-compatible)")
            []) {
              old_value = text was;
              new_value = text now;
              breaking_hint =
                  hint
                    "the wire is unaffected, but generated code and any JSON transcoding use the name";
            })
        ∷ []
      else add
          (record (noted field_number_reused s
            (": field number "
              <> print number
              <> " changed from '"
              <> was
              <> "' ("
              <> old_type
              <> ") to '"
              <> now
              <> "' ("
              <> new_type
              <> ")")
            []) {
              old_value = text was;
              new_value = text now;
              breaking_hint = hint (
                  "data written by older clients still carries field "
                  <> print number
                  <> " and will decode into '"
                  <> now
                  <> "', which has a different type; reserve the number instead of reusing it");
            })
        ∷ []

  -- a number that is gone, unless it is reserved now
  field_dropped : ℕ → List Event
  field_dropped number =
      let was = name_at (get number (facts old).field_numbers) in
      add
        (record (noted (schema_changed s.direction) s
          (": field '" <> was <> "' (" <> print number <> ") removed without reserving its number")
          []) {
            old_value = text was;
            breaking_hint = hint (
                "add `reserved "
                <> print number
                <> ";` so the number cannot be reused for something else");
          })
      ∷ []

  presence_lost : String → List Event
  presence_lost name =
      when (contains name (names (properties new)))
        (record (noted field_presence_changed s (": field '" <> name <> "' lost explicit presence")
          []) {
            old_value = bool true;
            new_value = bool false;
            breaking_hint =
                hint "an unset field and a field set to its default are no longer distinguishable";
          })

  abbrev old_members : List (String × String)
  old_members = dict_of (oneof_pairs (facts old).oneofs)

  abbrev new_members : List (String × String)
  new_members = dict_of (oneof_pairs (facts new).oneofs)

  moved_into : String → List Event
  moved_into name =
      let group = name_at (get name new_members) in
      when (contains name (names (properties old)))
        (record (noted oneof_membership_changed s
          (": field '" <> name <> "' moved into oneof '" <> group <> "'") []) {
            new_value = text group;
            breaking_hint =
                hint
                  "setting this field now clears the others in the oneof; senders that set several will silently lose all but the last";
          })

  moved_out : String → List Event
  moved_out name =
      let group = name_at (get name old_members) in
      when (contains name (names (properties new)))
        (record (noted oneof_membership_changed s
          (": field '" <> name <> "' moved out of oneof '" <> group <> "'") []) {
            old_value = text group;
          })

  unreserved : ℕ → List Event
  unreserved number =
      when (not (contains number (keys (facts new).field_numbers)))
        (record (noted reservation_changed s
          (": field number " <> print number <> " is no longer reserved") []) {
            old_value = nat number;
            breaking_hint = hint "nothing now prevents this number being reused";
          })

  -- sorted((set(old) - set(new)) - set(reserved)): a difference of differences keeps the order
  unfoldable pub protobuf_events : List Event
  unfolding field_renumbered field_dropped presence_lost moved_into moved_out unreserved oneof_pairs
  protobuf_events =
      let old_numbers = keys (facts old).field_numbers in
      let new_numbers = keys (facts new).field_numbers in
      each field_renumbered (in_both old_numbers new_numbers)
      ++ each field_dropped (only_in (only_in old_numbers new_numbers) (facts new).reserved_numbers)
      ++ each presence_lost (only_in (facts old).explicit_presence (facts new).explicit_presence)
      ++ each moved_into (only_in (keys new_members) (keys old_members))
      ++ each moved_out (only_in (keys old_members) (keys new_members))
      ++ each unreserved (only_in (facts old).reserved_numbers (facts new).reserved_numbers)
