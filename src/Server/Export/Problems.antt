-- ===== src/Server/Export/Problems.antt =====
-- What verify_export of apiverity/server/audit_export.py finds wrong with a document, and `_continuity`.
use api_verity_lab.Common.{
  ℕ, ◌+◌, String, ◌<>◌, Bool, true, false, not, Option, none, some, List, [], ◌∷◌, ◌++◌, ◌==◌,
  nat_ord, text_ord, option_ord, ltb, length, if◌then◌else◌,
}
use api_verity_lab.Common.Text.{print}
use api_verity_lab.Model.Repr.{repr_text}
use api_verity_lab.Diff.Change.{take_text}
use api_verity_lab.Server.Audit.{AuditEvent, ChainStatus}
use api_verity_lab.Server.Export.{Document, first_hash, last_hash}

-- str(n) of a number that may be None
unfoldable pub shown_number : Option ℕ → String
shown_number none = "None"
shown_number (some n) = print n

unfoldable pub shown_text : Option String → String
shown_text none = "None"
shown_text (some s) = s

-- repr(s) of a text that may be None
unfoldable pub shown_repr : Option String → String
shown_repr none = "None"
shown_repr (some s) = repr_text s

-- the loop over zip(earlier, current), from `index` on, and the text after it: the state, and the
-- problem that is appended
unfoldable pub compare_entries : ℕ → ℕ → List AuditEvent → List AuditEvent → String × List String
compare_entries count index (before ∷ earlier) (now ∷ current) =
    let on = compare_entries count (index + 1) earlier current in
    if not (before.entry_hash == now.entry_hash)
    then (
      "rewritten",
      ("entry "
            <> (print index
                <> (" differs from the earlier export ("
                    <> (take_text 12 before.entry_hash
                        <> ("... -> "
                            <> (take_text 12 now.entry_hash <> "...): history was rewritten"))))))
          ∷ [],
    )
    else on
compare_entries count index _ _ =
    ("continuous (" <> (print count <> " earlier entries unchanged)"), [])

unfoldable pub compare_lists :
    Document → Document → List AuditEvent → List AuditEvent → String × List String
unfolding compare_entries
compare_lists document previous earlier current =
    if not (previous.org_id == document.org_id)
    then (
      "different org",
      ("the earlier export is for org "
            <> (shown_number previous.org_id
                <> (", this one for " <> shown_number document.org_id)))
          ∷ [],
    )
    else if ltb (length current) (length earlier)
    then (
      "truncated",
      ("this export has "
            <> (print (length current)
                <> (" entries, the earlier one had "
                    <> (print (length earlier) <> ": an append-only log cannot shrink"))))
          ∷ [],
    )
    else compare_entries (length earlier) 0 earlier current

-- _continuity
unfoldable pub continuity : Document → Document → String × List String
unfolding compare_lists
continuity document previous = elim previous.entries [
  | none ↦ ("unreadable", "the earlier document has no `entries` to compare against" ∷ [])
  | some earlier ↦ elim document.entries [
    | none ↦ ("unreadable", "the earlier document has no `entries` to compare against" ∷ [])
    | some current ↦ compare_lists document previous earlier current
  ]
]

-- if test: problems.append(message)
abbrev pub problem_if : Bool → String → List String
problem_if true message = message ∷ []
problem_if false message = []

-- entry_count and, if there are entries, the two hashes
unfoldable pub count_problems : Document → List AuditEvent → List String
count_problems document entries = problem_if (not (document.entry_count == some (length entries))) (
    "entry_count says "
    <> (shown_number document.entry_count <> (", the document carries " <> print (length entries))))

unfoldable pub hash_problems : Document → List AuditEvent → List String
unfolding first_hash last_hash
hash_problems document [] = []
hash_problems document (e ∷ rest) =
    problem_if (not (document.first_entry_hash == first_hash (e ∷ rest)))
      "first_entry_hash does not match the first entry"
    ++ problem_if (not (document.last_entry_hash == last_hash (e ∷ rest)))
        "last_entry_hash does not match the last entry"

unfoldable pub chain_problems : ChainStatus → List String
chain_problems status = problem_if (not status.valid) (
    "chain broken at entry "
    <> (shown_number status.broken_at <> (": " <> shown_text status.reason)))
