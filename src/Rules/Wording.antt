-- ===== src/Rules/Wording.antt =====
-- The texts of changes that apiverity/rules/breaking.py looks into.
use api_verity_lab.Common.{
  String, ◌<>◌, Bool, Option, none, some, List, [], ◌∷◌, ◌==◌, text_ord, ◌||◌, if◌then◌else◌,
}
use api_verity_lab.Common.Text.{before, starts_with}
use api_verity_lab.Model.Repr.{repr_value}
use api_verity_lab.Diff.Change.{Piece, lit, repr}

-- the text of an f-string
unfoldable pub rendered : List Piece → String
rendered [] = ""
rendered (lit s ∷ rest) = s <> rendered rest
rendered (repr v ∷ rest) = repr_value v <> rendered rest

-- s.endswith(t)
unfoldable pub ends_with : String → String → Bool
ends_with t String.[] = t == ""
ends_with t (String.◌∷◌ c s) = t == String.◌∷◌ c s || ends_with t s

-- `s` without the beginning `t`
without_prefix : String → String → String
without_prefix String.[] t = ""
without_prefix (String.◌∷◌ c s) String.[] = String.◌∷◌ c s
without_prefix (String.◌∷◌ c s) (String.◌∷◌ d t) = without_prefix s t

-- the text from the end of the first `separator` on
after_text : String → String → Option String
unfolding without_prefix
after_text separator String.[] = none
after_text separator (String.◌∷◌ c s) =
    let later = after_text separator s in
    if starts_with (String.◌∷◌ c s) separator
    then some (without_prefix (String.◌∷◌ c s) separator)
    else later

-- the text up to the first `separator`
before_text : String → String → String
before_text separator String.[] = ""
before_text separator (String.◌∷◌ c s) =
    let rest = before_text separator s in
    if starts_with (String.◌∷◌ c s) separator then "" else String.◌∷◌ c rest

-- desc.split("constraint '")[1].split("'")[0] if "constraint '" in desc else ""
unfoldable pub constraint_name : String → String
unfolding after_text before_text
constraint_name desc = elim (after_text "constraint '" desc) [
  | none ↦ ""
  | some rest ↦ before b'\'' (before_text "constraint '" rest)
]
