-- ===== src/Model/Operation.antt =====
-- The operations and the services of apiverity/core/model.py. Fields that no modelled code reads
-- are left out.
use api_verity_lab.Common.{
  String, ◌≡◌, refl, ◌<>◌, Bool, true, false, ◌||◌, Option, none, some, List, [], ◌∷◌, text_ord,
  contains, if◌then◌else◌,
}
use api_verity_lab.Common.Text.{upper, lower, strip, before, starts_with, is_empty}
use api_verity_lab.Model.Value.{Value, Members}
use api_verity_lab.Model.Schema.{SchemaNode, SourceLocation}

pub data Protocol : Type 0 where
  openapi swagger graphql grpc asyncapi sse websocket mcp soap : Protocol

pub data ParameterLocation : Type 0 where
  path query header cookie querystring : ParameterLocation

-- the enum's value
unfoldable pub location_value : ParameterLocation → String
location_value path = "path"
location_value query = "query"
location_value header = "header"
location_value cookie = "cookie"
location_value querystring = "querystring"

pub record Parameter : Type 0 where
  pub name : String
  pub location : ParameterLocation
  pub required : Bool
  pub schema_node : Option SchemaNode
  pub source_location : Option SourceLocation

pub record Encoding : Type 0 where
  pub content_type : Option String

pub record StreamingMedia : Type 0 where
  pub item_schema : Option SchemaNode
  pub item_encoding : List (String × Encoding)
  pub prefix_encoding : List Encoding

pub record RequestBody : Type 0 where
  pub required : Bool
  pub content : List (String × SchemaNode)
  pub streaming : List (String × StreamingMedia)
  pub source_location : Option SourceLocation

pub record Response : Type 0 where
  pub status : String
  pub headers : List (String × SchemaNode)
  pub content : List (String × SchemaNode)
  pub streaming : List (String × StreamingMedia)
  pub source_location : Option SourceLocation

pub record Example : Type 0 where
  pub name : String
  pub value : Value

pub data OperationKind : Type 0 where
  http graphql_field grpc_rpc event ws_message mcp_tool soap_operation : OperationKind

-- op.kind == kind
abbrev pub is_kind : OperationKind → OperationKind → Bool
is_kind http http = true
is_kind graphql_field graphql_field = true
is_kind grpc_rpc grpc_rpc = true
is_kind event event = true
is_kind ws_message ws_message = true
is_kind mcp_tool mcp_tool = true
is_kind soap_operation soap_operation = true
is_kind _ _ = false

-- A security requirement is its scheme's name. `security` is `none` to inherit the global one.
pub record Operation : Type 0 where
  pub kind : OperationKind
  pub method : Option String
  pub path : Option String
  pub rpc_name : Option String
  pub service_name : Option String
  pub summary : Option String
  pub description : Option String
  pub deprecated : Bool
  pub parameters : List Parameter
  pub request_body : Option RequestBody
  pub responses : List Response
  pub security : Option (List String)
  pub examples : List Example
  pub client_streaming : Bool
  pub server_streaming : Bool
  pub channel : Option String
  pub message_name : Option String
  pub direction : Option String
  pub bindings : Members
  pub source_location : Option SourceLocation

-- An f-string shows `None` for a missing text.
abbrev pub shown : Option String → String
shown none = "None"
shown (some s) = s

-- s or d, for texts: an empty text is false
abbrev pub or_else : Option String → String → String
or_else none d = d
or_else (some s) d = if is_empty s then d else s

event_channel : Operation → String
event_channel op = or_else op.channel (or_else op.path "")

unfoldable pub key : Operation → String
unfolding upper event_channel is_empty
key op = elim op.kind [
  | http ↦ upper (or_else op.method "") <> " " <> shown op.path
  | event ↦
      or_else op.direction "?"
      <> " "
      <> event_channel op
      <> "#"
      <> or_else op.message_name (shown op.rpc_name)
  | mcp_tool ↦ "tool " <> shown op.rpc_name
  | _ ↦ shown op.service_name <> "." <> shown op.rpc_name
]

sequential_media : List String
sequential_media =
    "text/event-stream" ∷ "application/jsonl" ∷ "application/x-ndjson" ∷ "application/json-seq"
    ∷ "application/jsonlines" ∷ []

unfoldable pub is_sequential_media : String → Bool
unfolding before strip lower starts_with contains sequential_media
is_sequential_media media_type =
    let base = lower (strip (before b';' media_type)) in
    contains base sequential_media || starts_with base "multipart/"

sequential_examples :
    (is_sequential_media " Text/Event-Stream ; charset=utf-8" ≡ true)
    × (is_sequential_media "application/json" ≡ false)
    × (is_sequential_media "multipart/mixed" ≡ true)
unfolding is_sequential_media
sequential_examples = (refl, refl, refl)

pub record Service : Type 0 where
  pub version : String
  pub protocol : Protocol
  pub servers : List String
  pub operations : List Operation
  pub global_security : List String
  pub bindings : Members
