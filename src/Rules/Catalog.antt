-- ===== src/Rules/Catalog.antt =====
-- `CATALOG` of apiverity/rules/breaking.py: the breaking rules and their severities.
use api_verity_lab.Common.{String, List, [], ◌∷◌}
use api_verity_lab.Model.Finding.{Severity, error, warn, info}

unfoldable pub catalog : List (String × Severity)
catalog =
    ("BRK-OP-REMOVED", error)
    ∷ ("BRK-STREAM-SEQUENTIAL-CHANGED", error)
    ∷ ("BRK-STREAM-ITEM-SCHEMA-REMOVED", error)
    ∷ ("BRK-STREAM-ITEM-SCHEMA-ADDED", info)
    ∷ ("BRK-STREAM-ENCODING-CHANGED", error)
    ∷ ("BRK-STREAM-PREFIX-COUNT-CHANGED", error)
    ∷ ("BRK-RPC-STREAMING-CHANGED", error)
    ∷ ("BRK-FIELD-NUMBER-REUSED", error)
    ∷ ("BRK-FIELD-NUMBER-UNRESERVED", warn)
    ∷ ("BRK-FIELD-PRESENCE-LOST", error)
    ∷ ("BRK-ONEOF-NARROWED", error)
    ∷ ("BRK-ONEOF-WIDENED", info)
    ∷ ("BRK-RESERVATION-REMOVED", warn)
    ∷ ("BRK-RPC-REMOVED", error)
    ∷ ("BRK-OP-ADDED", info)
    ∷ ("BRK-RPC-ADDED", info)
    ∷ ("BRK-PARAM-REMOVED", error)
    ∷ ("BRK-PARAM-ADDED-REQUIRED", error)
    ∷ ("BRK-PARAM-ADDED-OPTIONAL", info)
    ∷ ("BRK-PARAM-REQUIRED", error)
    ∷ ("BRK-PARAM-OPTIONALIZED", info)
    ∷ ("BRK-PARAM-TYPE-CHANGED", error)
    ∷ ("BRK-RESP-TYPE-CHANGED", warn)
    ∷ ("BRK-CONSTRAINT-TIGHTENED", error)
    ∷ ("BRK-CONSTRAINT-LOOSENED", info)
    ∷ ("BRK-RESP-CONSTRAINT-TIGHTENED", warn)
    ∷ ("BRK-ENUM-NARROWED-REQUEST", error)
    ∷ ("BRK-ENUM-NARROWED-RESPONSE", warn)
    ∷ ("BRK-ENUM-WIDENED", info)
    ∷ ("BRK-RESP-NULLABLE-ADDED", warn)
    ∷ ("BRK-RESP-NULLABLE-REMOVED", info)
    ∷ ("BRK-REQ-NULLABLE-REMOVED", error)
    ∷ ("BRK-REQ-NULLABLE-ADDED", info)
    ∷ ("BRK-RESP-CONSTRAINT-LOOSENED", warn)
    ∷ ("BRK-REQ-FIELD-REMOVED", error)
    ∷ ("BRK-REQ-FIELD-OPTIONALIZED", info)
    ∷ ("BRK-RESP-FIELD-OPTIONALIZED", error)
    ∷ ("BRK-REQ-FIELD-ADDED-REQUIRED", error)
    ∷ ("BRK-REQ-FIELD-ADDED-OPTIONAL", info)
    ∷ ("BRK-REQ-FIELD-BECAME-REQUIRED", error)
    ∷ ("BRK-RESP-FIELD-REMOVED", error)
    ∷ ("BRK-RESP-FIELD-ADDED", info)
    ∷ ("BRK-REQ-BODY-REMOVED", error)
    ∷ ("BRK-REQ-BODY-ADDED-REQUIRED", error)
    ∷ ("BRK-REQ-BODY-ADDED-OPTIONAL", info)
    ∷ ("BRK-REQ-BODY-REQUIRED", error)
    ∷ ("BRK-RESP-STATUS-REMOVED", error)
    ∷ ("BRK-RESP-STATUS-ADDED", info)
    ∷ ("BRK-HEADER-REMOVED", warn)
    ∷ ("BRK-HEADER-ADDED", info)
    ∷ ("BRK-SECURITY-CHANGED", error)
    ∷ ("BRK-DEPRECATION-ADDED", warn)
    ∷ ("BRK-DEPRECATION-REMOVED", info)
    ∷ ("BRK-DEPENDENT-REQUIRED-ADDED", error)
    ∷ ("BRK-DEPENDENT-REQUIRED-REMOVED", warn)
    ∷ ("BRK-DEPENDENT-SCHEMA-CHANGED", warn)
    ∷ ("BRK-TUPLE-SHAPE-CHANGED", error)
    ∷ ("BRK-PATTERN-PROPERTIES-CHANGED", warn)
    ∷ ("BRK-PROPERTY-NAMES-CHANGED", warn)
    ∷ ("BRK-CONTAINS-CHANGED", warn)
    ∷ ("BRK-CONDITIONAL-SCHEMA-CHANGED", warn)
    ∷ ("BRK-MEDIA-TYPE-CHANGED", error)
    ∷ ("BRK-MCP-TOOL-DESCRIPTION-CHANGED", warn)
    ∷ ("BRK-MCP-OUTPUT-SCHEMA-REMOVED", error)
    ∷ ("BRK-MCP-OUTPUT-SCHEMA-ADDED", warn)
    ∷ ("BRK-MCP-READONLY-HINT-CLEARED", warn)
    ∷ ("BRK-MCP-READONLY-HINT-SET", warn)
    ∷ ("BRK-MCP-DESTRUCTIVE-HINT-SET", warn)
    ∷ ("BRK-MCP-DESTRUCTIVE-HINT-CLEARED", warn)
    ∷ ("BRK-MCP-IDEMPOTENT-HINT-CLEARED", warn)
    ∷ ("BRK-MCP-IDEMPOTENT-HINT-SET", warn)
    ∷ ("BRK-MCP-OPENWORLD-HINT-CHANGED", info)
    ∷ ("BRK-MCP-ANNOTATION-DECLARATION-CHANGED", info)
    ∷ ("BRK-MCP-TOOL-RENAME-SUSPECTED", info)
    ∷ ("BRK-MCP-MANIFEST-TRUNCATED", error)
    ∷ ("BRK-RESP-FIELD-GUARANTEED", info)
    ∷ ("BRK-SOAP-ACTION-CHANGED", error)
    ∷ ("BRK-SOAP-STYLE-CHANGED", error)
    ∷ ("BRK-SOAP-VERSION-CHANGED", error)
    ∷ []
