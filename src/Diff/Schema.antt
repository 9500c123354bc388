-- ===== src/Diff/Schema.antt =====
-- `_diff_schema` and `_diff_2020_12` of apiverity/diff/engine.py: the walk over two schemas.
-- The recursion is on the old schema. A loop over the sorted names of two dicts has the comparison
-- of each old child ready (`Visit`), and applies it to the new child of that name.
pub mod Unchanged
use api_verity_lab.Common.{
  ℕ, zero, suc, String, ◌<>◌, Bool, true, false, ◌||◌, Option, none, some, List, [], ◌∷◌, ◌++◌,
  ◌==◌, nat_ord, text_ord, option_ord, if◌then◌else◌, in_both, in_either,
}
use api_verity_lab.Common.Text.{print}
use api_verity_lab.Model.Value.{text}
use api_verity_lab.Model.Schema.{
  Facts, SchemaNode, Parts, Fields, Nodes, Branch, node, parts, end, field, nil, cons, absent,
  present, facts, properties, pattern_properties, dependent_schemas, items, contains_schema,
  property_names, if_schema, then_schema, else_schema, one_of, any_of, all_of, prefix_items, names,
  get_field, count_nodes,
}
use api_verity_lab.Diff.Kind.{
  dependent_schema_changed, tuple_shape_changed, pattern_properties_changed, property_names_changed,
  contains_changed, conditional_schema_changed,
}
use api_verity_lab.Diff.Change.{lit, repr, Event, add}
use api_verity_lab.Diff.Site.{Site, below, noted, opt_text, each, in_turn}
use api_verity_lab.Diff.Facts.{facts_events}
use api_verity_lab.Diff.Members.{property_events, required_events, discriminator_events}
use api_verity_lab.Diff.Protobuf.{protobuf_events}
use api_verity_lab.Diff.Keywords.{
  dependent_required_events, contains_bounds, presence_events, entry_events, tuple_length,
}

-- The comparison of one old child with a new one.
abbrev pub Visit : Type 0
Visit = SchemaNode → Site → List Event

get_visit : String → List (String × Visit) → Option Visit
get_visit k [] = none
get_visit k ((j, visit) ∷ rest) = if j == k then some visit else get_visit k rest

visit_found : Option Visit → Branch → Site → List Event
visit_found (some visit) (present child) s = visit child s
visit_found _ _ s = []

-- `self._diff_schema(old[name], new[name], …)`, for a name of both dicts
visit_entry : List (String × Visit) → Fields → Site → String → List Event
unfolding get_visit
visit_entry visits new s name = visit_found (get_visit name visits) (get_field name new) s

module _ (old : Fields) (visits : List (String × Visit)) (new : Fields) (s : Site) where
  visit_properties : List Event
  unfolding visit_entry visit_found
  visit_properties =
      each (λ name. visit_entry visits new (below s ("." <> name)) name)
        (in_both (names old) (names new))

  dependent_schema_entry : String → List Event
  unfolding visit_entry visit_found
  dependent_schema_entry name =
      entry_events dependent_schema_changed s
        (lit ": a conditional schema now applies when " ∷ repr (text name) ∷ lit " is present" ∷ [])
        (lit ": the conditional schema for " ∷ repr (text name) ∷ lit " was removed" ∷ [])
        (text name) (get_field name old) (get_field name new)
      ++ visit_entry visits new (below s ("/dependentSchemas/" <> name)) name

  visit_dependent_schemas : List Event
  unfolding dependent_schema_entry
  visit_dependent_schemas = each dependent_schema_entry (in_either (names old) (names new))

  pattern_entry : String → List Event
  unfolding visit_entry visit_found
  pattern_entry name =
      entry_events pattern_properties_changed s
        (lit ": properties matching " ∷ repr (text name) ∷ lit " are now constrained" ∷ [])
        (lit ": the constraint on properties matching "
          ∷ repr (text name)
          ∷ lit " was removed"
          ∷ [])
        (text name) (get_field name old) (get_field name new)
      ++ visit_entry visits new (below s ("/patternProperties/" <> name)) name

  visit_pattern_properties : List Event
  unfolding pattern_entry
  visit_pattern_properties = each pattern_entry (in_either (names old) (names new))

-- `if old.field_numbers or new.field_numbers`
has_numbers : Facts → Bool
has_numbers f = elim f.field_numbers [ [] ↦ false | _ ∷ _ ↦ true ]

guarded_protobuf : SchemaNode → SchemaNode → Site → List Event
unfolding has_numbers
guarded_protobuf old new s =
    if has_numbers (facts old) || has_numbers (facts new) then protobuf_events old new s else []

item_type_changed : Site → ℕ → Option String → Option String → Event
item_type_changed s index old new =
    add
      (record (noted tuple_shape_changed s (": tuple position " <> print index <> " changed type ")
        (repr (opt_text old) ∷ lit " -> " ∷ repr (opt_text new) ∷ [])) {
          old_value = opt_text old;
          new_value = opt_text new;
        })

-- `if`, `then` and `else`: a branch that came or went
conditional_presence : String → Site → Branch → Branch → List Event
conditional_presence keyword s old new =
    presence_events conditional_schema_changed s (": a `" <> keyword <> "` branch was added")
      (": the `" <> keyword <> "` branch was removed") old new

-- `o_variants and n_variants and len(o_variants) == len(n_variants)`: with no variant on either
-- side there is no pair to compare.
paired : Nodes → Nodes → List Event → List Event
paired old new pairs = if count_nodes old == count_nodes new then pairs else []

-- prefixItems: one event for another length, else the pairs
positioned : Nodes → Nodes → Site → List Event → List Event
positioned old new s pairs =
    if count_nodes old == count_nodes new
    then pairs
    else tuple_length s (count_nodes old) (count_nodes new) ∷ []

-- one position of a tuple
position : SchemaNode → SchemaNode → ℕ → Site → List Event → List Event
unfolding item_type_changed
position old new i s inside =
    if (facts old).type == (facts new).type
    then inside
    else item_type_changed s i (facts old).type (facts new).type ∷ []

unfoldable mutual
  unfolding guarded_protobuf visit_properties visit_dependent_schemas visit_pattern_properties
      paired positioned position conditional_presence

  pub diff_schema : SchemaNode → SchemaNode → Site → List Event
  diff_schema (node f p) new s =
      guarded_protobuf (node f p) new s
      ++ facts_events f (facts new) s
      ++ property_events (node f p) new s
      ++ diff_parts p (node f p) new s

  -- what is left of `_diff_schema`, and `_diff_2020_12`; `old` is the node of the parts
  pub diff_parts : Parts → SchemaNode → SchemaNode → Site → List Event
  diff_parts (parts props pats deps extra its neg con nam iff thn els one any all pre) old new s =
      in_turn (
        visit_properties props (visits_of props) (properties new) s
        ∷ required_events old new s
        ∷ diff_branch its (items new) (below s "[]")
        ∷ discriminator_events (facts old).discriminator (facts new).discriminator s
        ∷ paired one (one_of new) (diff_pairs "/one_of[" zero one (one_of new) s)
        ∷ paired any (any_of new) (diff_pairs "/any_of[" zero any (any_of new) s)
        ∷ paired all (all_of new) (diff_pairs "/all_of[" zero all (all_of new) s)
        ∷ dependent_required_events (facts old) (facts new) s
        ∷ visit_dependent_schemas deps (visits_of deps) (dependent_schemas new) s
        ∷ positioned pre (prefix_items new) s (diff_positions zero pre (prefix_items new) s)
        ∷ visit_pattern_properties pats (visits_of pats) (pattern_properties new) s
        ∷ presence_events property_names_changed s ": property names are now constrained"
            ": the constraint on property names was removed" nam (property_names new)
        ∷ diff_branch nam (property_names new) (below s "/propertyNames")
        ∷ presence_events contains_changed s ": the array must now contain a matching member"
            ": the `contains` requirement was removed" con (contains_schema new)
        ∷ diff_branch con (contains_schema new) (below s "/contains")
        ∷ contains_bounds (facts old) (facts new) s
        ∷ conditional_presence "if" s iff (if_schema new)
        ∷ diff_branch iff (if_schema new) (below s "/if")
        ∷ conditional_presence "then" s thn (then_schema new)
        ∷ diff_branch thn (then_schema new) (below s "/then")
        ∷ conditional_presence "else" s els (else_schema new)
        ∷ diff_branch els (else_schema new) (below s "/else")
        ∷ [])

  -- if old is not None and new is not None
  pub diff_branch : Branch → Branch → Site → List Event
  diff_branch absent new s = []
  diff_branch (present old) absent s = []
  diff_branch (present old) (present new) s = diff_schema old new s

  pub visits_of : Fields → List (String × Visit)
  visits_of end = []
  visits_of (field name child rest) = (name, λ new s. diff_schema child new s) ∷ visits_of rest

  pub diff_pairs : String → ℕ → Nodes → Nodes → Site → List Event
  diff_pairs segment i nil new s = []
  diff_pairs segment i (cons old olds) nil s = []
  diff_pairs segment i (cons old olds) (cons new news) s =
      diff_schema old new (below s (segment <> print i <> "]"))
      ++ diff_pairs segment (suc i) olds news s

  pub diff_positions : ℕ → Nodes → Nodes → Site → List Event
  diff_positions i nil new s = []
  diff_positions i (cons old olds) nil s = []
  diff_positions i (cons old olds) (cons new news) s =
      position old new i s (diff_schema old new (below s ("/prefixItems[" <> print i <> "]")))
      ++ diff_positions (suc i) olds news s
