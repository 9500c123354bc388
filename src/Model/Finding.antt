-- ===== src/Model/Finding.antt =====
-- `Severity` and `Finding` of apiverity/core/model.py. Fields that no modelled code reads or sets are
-- left out.
use api_verity_lab.Common.{String, Bool, true, false, Option, none}
use api_verity_lab.Model.Schema.{SourceLocation}

pub data Severity : Type 0 where
  error warn info : Severity

-- severity is other
abbrev pub is_severity : Severity → Severity → Bool
is_severity error error = true
is_severity warn warn = true
is_severity info info = true
is_severity _ _ = false

pub record Finding : Type 0 where
  pub rule_id : String
  pub severity : Severity
  pub message : String
  pub operation_key : Option String
  pub location : Option SourceLocation
  pub new_location : Option SourceLocation
  pub change_id : Option String
  pub hint : Option String

-- a finding with the other fields left at their defaults
abbrev pub plain_finding : String → Severity → String → Option String → Finding
plain_finding rule_id severity message operation_key = record {
  rule_id = rule_id;
  severity = severity;
  message = message;
  operation_key = operation_key;
  location = none;
  new_location = none;
  change_id = none;
  hint = none;
}
