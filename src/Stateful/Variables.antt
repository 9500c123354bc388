-- ===== src/Stateful/Variables.antt =====
-- The variables of a text and of a value: `variables_in` of apiverity/stateful/models.py and `_deep_vars`
-- of apiverity/stateful/graph.py. A set is a list with its members, in any order.
use Prim.Native.Char.{code}
use api_verity_lab.Common.{
  ℕ, String, ◌<>◌, Bool, not, ◌&&◌, ◌||◌, Option, none, some, List, [], ◌∷◌, ◌++◌, ◌==◌, nat_ord,
  text_ord, leb, if◌then◌else◌,
}
use api_verity_lab.Common.Text.{is_empty}
use api_verity_lab.Model.Value.{
  Value, Values, Members, null, bool, number, text, list, dict, nil, cons, end, member,
}

-- [A-Za-z_]
abbrev starts_name : ℕ → Bool
starts_name c = (leb 65 c && leb c 90) || (leb 97 c && leb c 122) || c == 95

-- [A-Za-z0-9_]
abbrev continues_name : ℕ → Bool
continues_name c = starts_name c || (leb 48 c && leb c 57)

-- what VARIABLE_RE has matched: nothing, or `{` and the start of a name
abbrev joins : String → ℕ → Bool
joins name c = if is_empty name then starts_name c else continues_name c

unfoldable pub scan : Option String → String → List String
unfolding is_empty
scan name String.[] = []
scan none (String.◌∷◌ c s) =
    let opened = scan (some "") s in let on = scan none s in if code c == 123 then opened else on
scan (some name) (String.◌∷◌ c s) =
    let longer = scan (some (name <> String.◌∷◌ c "")) s in
    let found = scan none s in
    let again = scan (some "") s in
    if joins name (code c)
    then longer
    else if code c == 125 && not (is_empty name)
    then name ∷ found
    else if code c == 123
    then again
    else found

-- variables_in(text) for a string
unfoldable pub variables_in : String → List String
unfolding scan
variables_in = scan none

unfoldable mutual
  unfolding variables_in

  pub deep_vars : Value → List String
  deep_vars null = []
  deep_vars (bool b) = []
  deep_vars (number n) = []
  deep_vars (text s) = variables_in s
  deep_vars (list values) = values_vars values
  deep_vars (dict members) = members_vars members

  pub values_vars : Values → List String
  values_vars nil = []
  values_vars (cons v rest) = deep_vars v ++ values_vars rest

  pub members_vars : Members → List String
  members_vars end = []
  members_vars (member k v rest) = variables_in k ++ (deep_vars v ++ members_vars rest)
