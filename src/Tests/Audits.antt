-- ===== src/Tests/Audits.antt =====
-- The audit log of apiverity/server, with a digest that can be read back.
use Prim.Native.Char.{Char, char, code}
use text.Mathlib.TextEquality.{Char-path}
use api_verity_lab.Common.{
  String, true, false, List, [], ◌∷◌, ◌≡◌, refl, sym, ap, ap₂, ◌∙◌, arith, ◌⊎◌, ◌==◌, nat_ord,
  text_ord, ==_iff, if◌then◌else◌, Bool-cases, inl, inr,
}
use api_verity_lab.Common.Text.Separators.{free_of}
use api_verity_lab.Server.Audit.{AuditEvent, AuditLog, empty_log, basis, audit_status, verify_chain}
use api_verity_lab.Server.Audit.Chain.{
  Append, append_all, append_all-valid, IsLinked, walk-IsLinked,
}
use api_verity_lab.Server.Audit.Broken.{BreaksAt, verify_chain-BreaksAt}
use api_verity_lab.Server.Audit.Tamper.{
  IsPlain, AllSame, verify_chain-AllSame, moved, verify_chain-moved,
}

abbrev zero_mark : Char
zero_mark = char b'0' tt

abbrev one_mark : Char
one_mark = char b'1' tt

-- each bar as 0, and each other character behind a 1
escape : String → String
escape String.[] = ""
escape (String.◌∷◌ c s) =
    let rest = escape s in
    if code c == b'|' then String.◌∷◌ zero_mark rest else String.◌∷◌ one_mark (String.◌∷◌ c rest)

escape-Barless : (s : String) → free_of b'|' (escape s) ≡ true
unfolding escape free_of
escape-Barless String.[] = refl
escape-Barless (String.◌∷◌ c s) = elim (Bool-cases (code c == b'|')) [
  | inl bar ↦ rw (bar, escape) (escape-Barless s)
  | inr other ↦ rw (other, escape) (ground (arith, other, escape-Barless s))
]

abbrev bar_mark : Char
bar_mark = char b'|' tt

unescape : String → String
unescape String.[] = ""
unescape (String.◌∷◌ m String.[]) = if code m == b'0' then String.◌∷◌ bar_mark "" else ""
unescape (String.◌∷◌ m (String.◌∷◌ c s)) =
    let after_bar = unescape (String.◌∷◌ c s) in
    let rest = unescape s in
    if code m == b'0' then String.◌∷◌ bar_mark after_bar else String.◌∷◌ c rest

unescape-bar : (s : String) → unescape (String.◌∷◌ zero_mark s) ≡ String.◌∷◌ bar_mark (unescape s)
unfolding unescape
unescape-bar String.[] = refl
unescape-bar (String.◌∷◌ c s) = refl

unescape-escape : (s : String) → unescape (escape s) ≡ s
unfolding escape unescape
unescape-escape String.[] = refl
unescape-escape (String.◌∷◌ c s) = elim (Bool-cases (code c == b'|')) [
  | inl bar ↦
      rw (bar, escape)
        (unescape-bar (escape s)
          ∙ ap₂ String.◌∷◌ (Char-path bar_mark c (sym ((==_iff (code c) b'|').0 bar)))
              (unescape-escape s))
  | inr other ↦ rw (other, escape) (ap (λ t. String.◌∷◌ c t) (unescape-escape s))
]

escape-injective : (s t : String) → escape s ≡ escape t → s ≡ t
escape-injective s t e = sym (unescape-escape s) ∙ ap unescape e ∙ unescape-escape t

abbrev calls : List Append
calls =
    record {
      org_id = 1;
      actor = "ann";
      action = "contract.published";
      target = "pets@1.0.0";
      payload_json = "{}";
      ts = "10:00";
    }
    ∷ record {
      org_id = 2;
      actor = "bob";
      action = "org.created";
      target = "org:2";
      payload_json = "{}";
      ts = "10:01";
    }
    ∷ record {
      org_id = 1;
      actor = "ann";
      action = "org.frozen";
      target = "org:1";
      payload_json = "{}";
      ts = "10:02";
    }
    ∷ []

abbrev log : AuditLog
log = append_all escape calls empty_log

append_all-valid_example : (audit_status escape 1 log).valid ≡ true
append_all-valid_example = append_all-valid escape 1 calls

abbrev first_entry : AuditEvent
first_entry = record {
  id = 1;
  ts = "10:00";
  actor = "ann";
  action = "contract.published";
  target = "pets@1.0.0";
  payload_json = "{}";
  prev_hash = "";
  entry_hash = escape (basis "" "10:00" "ann" "contract.published" "pets@1.0.0" "{}");
}

-- an entry whose text was edited
abbrev edited : AuditEvent
edited = record first_entry { actor = "eve" }

verify_chain-BreaksAt_example :
    ((IsLinked escape "" (edited ∷ [])) × ((verify_chain escape (edited ∷ [])).valid ≡ true))
    ⊎ ((BreaksAt escape "" (edited ∷ []) (verify_chain escape (edited ∷ [])).broken_at)
        × ((verify_chain escape (edited ∷ [])).valid ≡ false))
verify_chain-BreaksAt_example = verify_chain-BreaksAt escape (edited ∷ [])

first_entry-valid : (verify_chain escape (first_entry ∷ [])).valid ≡ true
unfolding verify_chain
first_entry-valid = (walk-IsLinked escape 1 "" (first_entry ∷ [])).1 ((refl, refl), tt)

first_entry-IsPlain : IsPlain first_entry
unfolding free_of
first_entry-IsPlain = record { ts = refl; actor = refl; action = refl; target = refl }

verify_chain-AllSame_example : AllSame (first_entry ∷ []) (first_entry ∷ [])
verify_chain-AllSame_example =
    verify_chain-AllSame escape escape-injective escape-Barless (first_entry ∷ [])
      (first_entry ∷ []) first_entry-valid first_entry-valid (first_entry-IsPlain, tt)
      (first_entry-IsPlain, tt) refl refl

-- an entry whose actor holds a bar
abbrev barred : AuditEvent
barred = record first_entry { actor = "ann|x" }

verify_chain-moved_example :
    verify_chain escape (moved barred "ann" "x" ∷ []) ≡ verify_chain escape (barred ∷ [])
verify_chain-moved_example = verify_chain-moved escape [] [] barred "ann" "x" refl
