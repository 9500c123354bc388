-- ===== src/Diff/Schema/Unchanged.antt =====
-- `_diff_schema` on one schema twice gives nothing, at any depth.
use api_verity_lab.Common.{
  ℕ, zero, suc, String, ◌<>◌, List, [], ◌∷◌, ◌≡◌, refl, ◌==◌, ==_refl, nat_ord, text_ord,
  option_ord, if_same, Bool-cases, inl, inr,
}
use api_verity_lab.Common.Text.{print}
use api_verity_lab.Model.Schema.{
  Facts, SchemaNode, Parts, Fields, Nodes, Branch, node, parts, end, field, nil, cons, absent,
  present, get_field,
}
use api_verity_lab.Diff.Change.{Event}
use api_verity_lab.Diff.Site.{Site, each-nil, in_turn-nil, done, ◌⨾◌, below}
use api_verity_lab.Diff.Facts.Unchanged.{facts_events_self}
use api_verity_lab.Diff.Members.Unchanged.{
  property_events_self, required_events_self, discriminator_events_self,
}
use api_verity_lab.Diff.Protobuf.Unchanged.{protobuf_events_self}
use api_verity_lab.Diff.Keywords.Unchanged.{
  dependent_required_events_self, contains_bounds_self, presence_events_self, entry_events_self,
}
use api_verity_lab.Diff.Schema.{
  Visit, visit_found, visit_entry, visit_properties, visit_dependent_schemas,
  visit_pattern_properties, guarded_protobuf, paired, positioned, position, conditional_presence,
  diff_schema, diff_parts, diff_branch, visits_of, diff_pairs, diff_positions,
}

-- Each visit of an entry finds nothing.
abbrev Quiet : Fields → Type 0
Quiet fs = (s : Site) (name : String) → visit_entry (visits_of fs) fs s name ≡ []

module _ (fs : Fields) (quiet : Quiet fs) (s : Site) where
  visit_properties_self : visit_properties fs (visits_of fs) fs s ≡ []
  unfolding visit_properties
  visit_properties_self = each-nil _ (λ name. quiet (below s ("." <> name)) name) _

  visit_dependent_schemas_self : visit_dependent_schemas fs (visits_of fs) fs s ≡ []
  unfolding visit_dependent_schemas
  visit_dependent_schemas_self =
      each-nil _
        (λ name. simp entry_events_self (quiet (below s ("/dependentSchemas/" <> name)) name)) _

  visit_pattern_properties_self : visit_pattern_properties fs (visits_of fs) fs s ≡ []
  unfolding visit_pattern_properties
  visit_pattern_properties_self =
      each-nil _
        (λ name. simp entry_events_self (quiet (below s ("/patternProperties/" <> name)) name)) _

guarded_protobuf_self : (n : SchemaNode) (s : Site) → guarded_protobuf n n s ≡ []
unfolding guarded_protobuf
guarded_protobuf_self n s = simp (protobuf_events_self, if_same)

conditional_presence_self :
    (keyword : String) (s : Site) (b : Branch) → conditional_presence keyword s b b ≡ []
unfolding conditional_presence
conditional_presence_self keyword s b = simp presence_events_self

paired_self : (ns : Nodes) (events : List Event) → events ≡ [] → paired ns ns events ≡ []
unfolding paired
paired_self ns events h = simp (h, if_same)

positioned_self :
    (ns : Nodes) (s : Site) (events : List Event) → events ≡ [] → positioned ns ns s events ≡ []
unfolding positioned
positioned_self ns s events h = simp (h, ==_refl)

position_self :
    (n : SchemaNode) (i : ℕ) (s : Site) (events : List Event)
    → events ≡ []
    → position n n i s events ≡ []
unfolding position
position_self n i s events h = simp (h, ==_refl)

quiet_end : (s : Site) (name : String) → visit_entry [] end s name ≡ []
unfolding visit_entry
quiet_end s name = unfold visit_found get_field in refl

quiet_field :
    (j : String) (child : SchemaNode) (visit : Visit) (rest : Fields)
    (visits : List (String × Visit)) (s : Site) (name : String)
    → visit child s ≡ []
    → visit_entry visits rest s name ≡ []
    → visit_entry ((j, visit) ∷ visits) (field j child rest) s name ≡ []
unfolding visit_entry get_field
quiet_field j child visit rest visits s name h k = elim (Bool-cases (j == name)) [
  | inl here ↦ rw here (unfold visit_found in h)
  | inr there ↦ rw there k
]

mutual
  unfolding diff_schema

  nothing : (n : SchemaNode) (s : Site) → diff_schema n n s ≡ []
  nothing (node f p) s =
      simp (guarded_protobuf_self, facts_events_self, property_events_self) (nothing_parts f p s)

  nothing_parts : (f : Facts) (p : Parts) (s : Site) → diff_parts p (node f p) (node f p) s ≡ []
  nothing_parts f (parts props pats deps extra its neg con nam iff thn els one any all pre) s =
      in_turn-nil (
        visit_properties_self props (nothing_fields props) s
        ⨾ required_events_self
            (node f (parts props pats deps extra its neg con nam iff thn els one any all pre)) s
        ⨾ nothing_branch its (below s "[]")
        ⨾ discriminator_events_self f.discriminator s
        ⨾ paired_self one _ (nothing_pairs one "/one_of[" zero s)
        ⨾ paired_self any _ (nothing_pairs any "/any_of[" zero s)
        ⨾ paired_self all _ (nothing_pairs all "/all_of[" zero s)
        ⨾ dependent_required_events_self f s
        ⨾ visit_dependent_schemas_self deps (nothing_fields deps) s
        ⨾ positioned_self pre s _ (nothing_positions pre zero s)
        ⨾ visit_pattern_properties_self pats (nothing_fields pats) s
        ⨾ presence_events_self _ s _ _ nam
        ⨾ nothing_branch nam (below s "/propertyNames")
        ⨾ presence_events_self _ s _ _ con
        ⨾ nothing_branch con (below s "/contains")
        ⨾ contains_bounds_self f s
        ⨾ conditional_presence_self "if" s iff
        ⨾ nothing_branch iff (below s "/if")
        ⨾ conditional_presence_self "then" s thn
        ⨾ nothing_branch thn (below s "/then")
        ⨾ conditional_presence_self "else" s els
        ⨾ nothing_branch els (below s "/else")
        ⨾ done)

  nothing_branch : (b : Branch) (s : Site) → diff_branch b b s ≡ []
  nothing_branch absent s = refl
  nothing_branch (present child) s = nothing child s

  nothing_fields :
      (fs : Fields) (s : Site) (name : String) → visit_entry (visits_of fs) fs s name ≡ []
  nothing_fields end s name = quiet_end s name
  nothing_fields (field j child rest) s name =
      quiet_field j child (diff_schema child) rest (visits_of rest) s name (nothing child s)
        (nothing_fields rest s name)

  nothing_pairs :
      (ns : Nodes) (segment : String) (i : ℕ) (s : Site) → diff_pairs segment i ns ns s ≡ []
  nothing_pairs nil segment i s = refl
  nothing_pairs (cons n ns) segment i s =
      simp (nothing n (below s (segment <> print i <> "]")), nothing_pairs ns segment (suc i) s)

  nothing_positions : (ns : Nodes) (i : ℕ) (s : Site) → diff_positions i ns ns s ≡ []
  nothing_positions nil i s = refl
  nothing_positions (cons n ns) i s = simp (
    position_self n i s _ (nothing n (below s ("/prefixItems[" <> print i <> "]"))),
    nothing_positions ns (suc i) s,
  )

-- A schema compared with itself gives no call of `_add` and raises nothing, whatever it holds.
pub diff_schema_self : (n : SchemaNode) (s : Site) → diff_schema n n s ≡ []
diff_schema_self n s = nothing n s
