-- ===== src/Server/Export.antt =====
-- The export of the audit log, and its check, of apiverity/server/audit_export.py.
pub mod Problems
pub mod Verify
pub mod Later
pub mod Sound
use api_verity_lab.Common.{
  ℕ, zero, suc, ◌+◌, String, ◌<>◌, Bool, true, false, not, Option, none, some, List, [], ◌∷◌, ◌++◌,
  ◌==◌, nat_ord, text_ord, option_ord, ltb, length, if◌then◌else◌,
}
use api_verity_lab.Common.Text.{print}
use api_verity_lab.Model.Repr.{repr_text}
use api_verity_lab.Diff.Change.{take_text}
use api_verity_lab.Server.Audit.{AuditEvent, ChainStatus, verify_chain}

-- document.get("seal"): missing, not a dict with a `value`, or the `value` as a text
pub data Seal : Type 0 where
  absent : Seal
  other : Bool → Seal
  value : String → Seal

-- An export as verify_export reads it; a field that is missing is `none`, and so are `entries` that
-- are no list. The texts that are the same in every export are left out.
pub record Document : Type 0 where
  pub schema : Option String
  pub tool_version : String
  pub exported_at : String
  pub org_id : Option ℕ
  pub org_name : Option String
  pub entry_count : Option ℕ
  pub first_entry_hash : Option String
  pub last_entry_hash : Option String
  pub chain : Option ChainStatus
  pub entries : Option (List AuditEvent)
  pub seal : Seal

pub record ExportVerification : Type 0 where
  pub ok : Bool
  pub entry_count : ℕ
  pub chain : Option ChainStatus
  pub seal_state : String
  pub continuity : String
  pub problems : List String

unfoldable pub export_schema : String
export_schema = "apiverity-audit-export/1"

unfoldable pub first_hash : List AuditEvent → Option String
first_hash [] = none
first_hash (e ∷ rest) = some e.entry_hash

unfoldable pub last_hash : List AuditEvent → Option String
last_hash [] = none
last_hash (e ∷ []) = some e.entry_hash
last_hash (e ∷ f ∷ rest) = last_hash (f ∷ rest)

module _ (canonical_bytes : Document → List ℕ) (hmac : List ℕ → List ℕ → String) where
  unfoldable pub seal : Document → List ℕ → String
  seal document key = hmac key (canonical_bytes (record document { seal = absent }))

module _ (digest : String → String) (canonical_bytes : Document → List ℕ)
    (hmac : List ℕ → List ℕ → String) where
  -- the document before it is sealed
  unfoldable pub unsealed : ℕ → Option String → List AuditEvent → String → String → Document
  unfolding first_hash last_hash verify_chain
  unsealed org_id org_name entries exported_at tool_version = record {
    schema = some export_schema;
    tool_version = tool_version;
    exported_at = exported_at;
    org_id = some org_id;
    org_name = org_name;
    entry_count = some (length entries);
    first_entry_hash = first_hash entries;
    last_entry_hash = last_hash entries;
    chain = some (verify_chain digest entries);
    entries = some entries;
    seal = absent;
  }

  unfoldable pub build_export :
      ℕ → Option String → List AuditEvent → String → String → Option (List ℕ) → Document
  unfolding unsealed
  build_export org_id org_name entries exported_at tool_version none =
      unsealed org_id org_name entries exported_at tool_version
  build_export org_id org_name entries exported_at tool_version (some key) =
      let document = unsealed org_id org_name entries exported_at tool_version in
      record document { seal = value (seal canonical_bytes hmac document key) }
