-- ===== src/Model/Schema.antt =====
-- `SchemaNode` of apiverity/core/model.py: a JSON-Schema-like tree.
use api_verity_lab.Common.{
  ℕ, suc, String, Bool, Option, List, [], ◌∷◌, ◌==◌, text_ord, if◌then◌else◌,
}
use api_verity_lab.Model.Value.{Number, Value}

pub record SourceLocation : Type 0 where
  pub file : String
  pub line : ℕ
  pub column : ℕ
  pub pointer : String

-- the dict that apiverity/specs/openapi/parser.py writes: `propertyName` and `mapping`
pub record Discriminator : Type 0 where
  pub property_name : Value
  pub mapping : List (String × Value)

-- The fields of a node that hold no schema. `X | None` is `Option X`, `Any | None` is `Value`.
pub record Facts : Type 0 where
  pub type : Option String
  pub format : Option String
  pub title : Option String
  pub description : Option String
  pub nullable : Bool
  pub deprecated : Bool
  pub data_classification : Option String
  pub enum : Option (List Value)
  pub const : Value
  pub default : Value
  pub example : Value
  pub required : List String
  pub min_properties : Option Number
  pub max_properties : Option Number
  pub min_items : Option Number
  pub max_items : Option Number
  pub unique_items : Option Bool
  pub min_length : Option Number
  pub max_length : Option Number
  pub pattern : Option String
  pub minimum : Option Number
  pub maximum : Option Number
  pub exclusive_minimum : Option Number
  pub exclusive_maximum : Option Number
  pub multiple_of : Option Number
  pub field_numbers : List (ℕ × String)
  pub reserved_numbers : List ℕ
  pub reserved_names : List String
  pub explicit_presence : List String
  pub oneofs : List (String × List String)
  pub discriminator : Option Discriminator
  pub min_contains : Option Number
  pub max_contains : Option Number
  pub dependent_required : List (String × List String)
  pub source_location : Option SourceLocation

-- The fields of a node that hold schemas. An absent list of schemas is the empty one: no code
-- here tells `None` from `[]`.
mutual
  pub data SchemaNode : Type 0 where
    node : Facts → Parts → SchemaNode

  pub data Parts : Type 0 where
    parts :
        (properties pattern_properties dependent_schemas : Fields)
        → (additional_properties : Additional)
        → (items not_ contains property_names if_schema then_schema else_schema : Branch)
        → (one_of any_of all_of prefix_items : Nodes) → Parts

  -- dict[str, SchemaNode]
  pub data Fields : Type 0 where
    end : Fields
    field : String → SchemaNode → Fields → Fields

  -- list[SchemaNode]
  pub data Nodes : Type 0 where
    nil : Nodes
    cons : SchemaNode → Nodes → Nodes

  -- SchemaNode | None
  pub data Branch : Type 0 where
    absent : Branch
    present : SchemaNode → Branch

  -- bool | SchemaNode | None
  pub data Additional : Type 0 where
    unstated : Additional
    allowed : Bool → Additional
    schema : SchemaNode → Additional

abbrev pub facts : SchemaNode → Facts
facts (node f p) = f

abbrev parts_of : SchemaNode → Parts
parts_of (node f p) = p

module _ (s : SchemaNode) where
  abbrev pub properties : Fields
  properties = elim (parts_of s) [ parts p q d _ i n c a b t e o y l x ↦ p ]

  abbrev pub pattern_properties : Fields
  pattern_properties = elim (parts_of s) [ parts p q d _ i n c a b t e o y l x ↦ q ]

  abbrev pub dependent_schemas : Fields
  dependent_schemas = elim (parts_of s) [ parts p q d _ i n c a b t e o y l x ↦ d ]

  abbrev pub items : Branch
  items = elim (parts_of s) [ parts p q d _ i n c a b t e o y l x ↦ i ]

  abbrev pub contains_schema : Branch
  contains_schema = elim (parts_of s) [ parts p q d _ i n c a b t e o y l x ↦ c ]

  abbrev pub property_names : Branch
  property_names = elim (parts_of s) [ parts p q d _ i n c a b t e o y l x ↦ a ]

  abbrev pub if_schema : Branch
  if_schema = elim (parts_of s) [ parts p q d _ i n c a b t e o y l x ↦ b ]

  abbrev pub then_schema : Branch
  then_schema = elim (parts_of s) [ parts p q d _ i n c a b t e o y l x ↦ t ]

  abbrev pub else_schema : Branch
  else_schema = elim (parts_of s) [ parts p q d _ i n c a b t e o y l x ↦ e ]

  abbrev pub one_of : Nodes
  one_of = elim (parts_of s) [ parts p q d _ i n c a b t e o y l x ↦ o ]

  abbrev pub any_of : Nodes
  any_of = elim (parts_of s) [ parts p q d _ i n c a b t e o y l x ↦ y ]

  abbrev pub all_of : Nodes
  all_of = elim (parts_of s) [ parts p q d _ i n c a b t e o y l x ↦ l ]

  abbrev pub prefix_items : Nodes
  prefix_items = elim (parts_of s) [ parts p q d _ i n c a b t e o y l x ↦ x ]

-- the keys of a dict of schemas
unfoldable pub names : Fields → List String
names end = []
names (field k child rest) = k ∷ names rest

-- d.get(k)
unfoldable pub get_field : String → Fields → Branch
get_field k end = absent
get_field k (field j child rest) = if j == k then present child else get_field k rest

-- len(l)
unfoldable pub count_nodes : Nodes → ℕ
count_nodes nil = 0
count_nodes (cons s rest) = suc (count_nodes rest)
