-- ===== src/Tests/Data.antt =====
-- Small contracts: two operations of a pet shop, and services that have them.
use api_verity_lab.Common.{String, true, false, none, some, [], ◌∷◌}
use api_verity_lab.Model.Value.{null, Members}
use api_verity_lab.Model.Schema.{
  Facts, SchemaNode, node, parts, Fields, Nodes, field, absent, allowed,
}
use api_verity_lab.Model.Operation.{
  openapi, query, Parameter, RequestBody, Response, http, Operation, Service,
}

abbrev pub no_facts : Facts
no_facts = record {
  type = none;
  format = none;
  title = none;
  description = none;
  nullable = false;
  deprecated = false;
  data_classification = none;
  enum = none;
  const = null;
  default = null;
  example = null;
  required = [];
  min_properties = none;
  max_properties = none;
  min_items = none;
  max_items = none;
  unique_items = none;
  min_length = none;
  max_length = none;
  pattern = none;
  minimum = none;
  maximum = none;
  exclusive_minimum = none;
  exclusive_maximum = none;
  multiple_of = none;
  field_numbers = [];
  reserved_numbers = [];
  reserved_names = [];
  explicit_presence = [];
  oneofs = [];
  discriminator = none;
  min_contains = none;
  max_contains = none;
  dependent_required = [];
  source_location = none;
}

-- a schema with the given properties and nothing else below it
abbrev pub object : Facts → Fields → SchemaNode
object facts properties = node facts (
    parts properties Fields.end Fields.end (allowed true) absent absent absent absent absent absent
      absent Nodes.nil Nodes.nil Nodes.nil Nodes.nil)

abbrev pub string_schema : SchemaNode
string_schema = object (record no_facts { type = some "string" }) Fields.end

abbrev pub pet : SchemaNode
pet =
    object (record no_facts { type = some "object"; required = "name" ∷ [] })
      (field "name" string_schema (field "tag" string_schema Fields.end))

abbrev pub no_operation : Operation
no_operation = record {
  kind = http;
  method = none;
  path = none;
  rpc_name = none;
  service_name = none;
  summary = none;
  description = none;
  deprecated = false;
  parameters = [];
  request_body = none;
  responses = [];
  security = none;
  examples = [];
  client_streaming = false;
  server_streaming = false;
  channel = none;
  message_name = none;
  direction = none;
  bindings = Members.end;
  source_location = none;
}

abbrev pub limit : Parameter
limit = record {
  name = "limit";
  location = query;
  required = false;
  schema_node = some string_schema;
  source_location = none;
}

abbrev pub pet_response : Response
pet_response = record {
  status = "200";
  headers = [];
  content = ("application/json", pet) ∷ [];
  streaming = [];
  source_location = none;
}

abbrev pub list_pets : Operation
list_pets = record no_operation {
  method = some "get";
  path = some "/pets";
  parameters = limit ∷ [];
  responses = pet_response ∷ [];
}

abbrev pub create_pet : Operation
create_pet = record no_operation {
  method = some "post";
  path = some "/pets";
  request_body = some (record {
    required = true;
    content = ("application/json", pet) ∷ [];
    streaming = [];
    source_location = none;
  });
}

abbrev pub shop : Service
shop = record {
  version = "1.0.0";
  protocol = openapi;
  servers = "https://pets.example" ∷ [];
  operations = list_pets ∷ create_pet ∷ [];
  global_security = "api_key" ∷ [];
  bindings = Members.end;
}

-- the same shop, its operations listed the other way round
abbrev pub turned : Service
turned = record shop { operations = create_pet ∷ list_pets ∷ [] }

-- a stand-in for the digest
abbrev pub digest : String → String
digest s = "0123456789abcdef"

abbrev pub body_json : RequestBody → String
body_json b = "{}"

abbrev pub response_json : Response → String
response_json r = r.status
