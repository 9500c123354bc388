-- ===== src/Tests/Exports.antt =====
-- Exports of a short audit log, with small functions for the digests.
use api_verity_lab.Common.{ℕ, String, ◌<>◌, true, none, some, List, [], ◌∷◌, ◌≡◌, refl, ap, length}
use api_verity_lab.Common.Text.{print}
use api_verity_lab.Server.Audit.{AuditLog, empty_log, audit_all}
use api_verity_lab.Server.Audit.Chain.{Append, append_all}
use api_verity_lab.Server.Export.{Document, build_export}
use api_verity_lab.Server.Export.Verify.{verify_export}
use api_verity_lab.Server.Export.Later.{verify_export-later}
use api_verity_lab.Server.Export.Sound.{IsEvidence, verify_export-IsEvidence}

abbrev digest : String → String
digest s = s <> "."

abbrev canonical_bytes : Document → List ℕ
canonical_bytes d = 0 ∷ []

abbrev hmac : List ℕ → List ℕ → String
hmac key text = print (length key)

abbrev call : String → Append
call ts = record {
  org_id = 1;
  actor = "ann";
  action = "contract.published";
  target = "pets@1.0.0";
  payload_json = "{}";
  ts = ts;
}

abbrev early_log : AuditLog
early_log = append_all digest (call "10:00" ∷ []) empty_log

abbrev late_log : AuditLog
late_log = append_all digest (call "11:00" ∷ []) early_log

abbrev early : Document
early = build_export digest canonical_bytes hmac 1 none (audit_all 1 early_log) "10:30" "0.1" none

abbrev late : Document
late =
    build_export digest canonical_bytes hmac 1 none (audit_all 1 late_log) "11:30" "0.1"
      (some (7 ∷ []))

verify_export-later_example :
    verify_export digest canonical_bytes hmac late (some (7 ∷ [])) (some early) ≡ record {
      ok = true;
      entry_count = length (audit_all 1 late_log);
      chain = some (record {
        valid = true;
        entry_count = length (audit_all 1 late_log);
        broken_at = none;
        reason = none;
      });
      seal_state = "valid";
      continuity =
          "continuous ("
          <> (print (length (audit_all 1 early_log)) <> " earlier entries unchanged)");
      problems = [];
    }
verify_export-later_example =
    verify_export-later digest canonical_bytes hmac (7 ∷ []) none 1 none none (call "10:00" ∷ [])
      (call "11:00" ∷ []) "11:30" "0.1" "10:30" "0.1"

late-ok : (verify_export digest canonical_bytes hmac late (some (7 ∷ [])) (some early)).ok ≡ true
late-ok = ap (λ v. v.ok) verify_export-later_example

verify_export-IsEvidence_example :
    IsEvidence digest canonical_bytes hmac late early
      (7 ∷ [])
      (audit_all 1 late_log)
      (audit_all 1 early_log)
verify_export-IsEvidence_example =
    verify_export-IsEvidence digest canonical_bytes hmac late early (7 ∷ []) (audit_all 1 late_log)
      (audit_all 1 early_log) (unfold build_export in refl) (unfold build_export in refl) late-ok
