-- ===== src/Model/Repr.antt =====
-- Python's `repr` of the values of `Any` fields, for the texts that the differ compares and prints.
-- A float is shown as its decimal; the escapes are those of printable ASCII and of line ends.
use Prim.Native.Char.{Char, code}
use api_verity_lab.Common.{
  ℕ, ◌/◌, ◌%◌, ◌^◌, ◌-◌, String, ◌<>◌, true, false, not, ◌&&◌, ◌==◌, nat_ord, text_ord,
  if◌then◌else◌, zero, suc, ◌≡◌, refl,
}
use api_verity_lab.Common.Text.{print, includes}
use api_verity_lab.Model.Value.{
  Number, Value, Values, Members, null, bool, number, text, list, dict, nil, cons, end, member,
}

-- "0" * n
zeros : ℕ → String
zeros zero = ""
zeros (suc n) = "0" <> zeros n

count_chars : String → ℕ
count_chars String.[] = 0
count_chars (String.◌∷◌ c s) = suc (count_chars s)

fraction : ℕ → ℕ → String
unfolding zeros count_chars
fraction scale part = zeros (scale - count_chars (print part)) <> print part

repr_number : Number → String
unfolding fraction
repr_number n =
    (if n.negative then "-" else "")
    <> print (n.mantissa / 10 ^ n.scale)
    <> (if n.scale == 0 then "" else "." <> fraction n.scale (n.mantissa % 10 ^ n.scale))

escape : String → Char → String
escape quote c =
    if code c == 92
    then "\\\\"
    else if String.◌∷◌ c "" == quote
    then "\\" <> quote
    else if code c == 10
    then "\\n"
    else if code c == 13
    then "\\r"
    else if code c == 9
    then "\\t"
    else String.◌∷◌ c ""

escape_all : String → String → String
unfolding escape
escape_all quote String.[] = ""
escape_all quote (String.◌∷◌ c s) = escape quote c <> escape_all quote s

-- repr(s)
unfoldable pub repr_text : String → String
unfolding escape_all
repr_text s =
    let quote = if includes "'" s && not (includes "\"" s) then "\"" else "'" in
    quote <> escape_all quote s <> quote

unfoldable mutual
  unfolding repr_number

  pub repr_value : Value → String
  repr_value null = "None"
  repr_value (bool true) = "True"
  repr_value (bool false) = "False"
  repr_value (number n) = repr_number n
  repr_value (text s) = repr_text s
  repr_value (list xs) = "[" <> repr_items xs <> "]"
  repr_value (dict xs) = "{" <> repr_members xs <> "}"

  pub repr_items : Values → String
  repr_items nil = ""
  repr_items (cons x xs) =
      let rest = repr_items xs in repr_value x <> elim xs [ nil ↦ "" | cons y ys ↦ ", " <> rest ]

  pub repr_members : Members → String
  repr_members end = ""
  repr_members (member k x xs) =
      let rest = repr_members xs in
      repr_text k <> ": " <> repr_value x <> elim xs [ end ↦ "" | member j y ys ↦ ", " <> rest ]

repr_sample :
    repr_value (
      list (
        cons (text "it's") (
          cons (bool true) (
            cons
              (number (record { negative = true; mantissa = 1205; scale = 3 }))
              (cons null nil)))))
    ≡ "[\"it's\", True, -1.205, None]"
unfolding repr_value repr_text includes print
repr_sample = refl
