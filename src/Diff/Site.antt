-- ===== src/Diff/Site.antt =====
-- Where in an operation `_diff_schema` stands, and the calls of `_add` that it makes there.
use api_verity_lab.Common.{
  ℕ, String, ◌<>◌, Bool, true, false, Option, none, some, List, [], ◌∷◌, ◌++◌, map, ◌≡◌, refl,
  if◌then◌else◌,
}
use api_verity_lab.Model.Value.{Number, Value, Values, null, bool, number, text, list, nil, cons}
use api_verity_lab.Diff.Kind.{ChangeKind, request_schema_changed, response_schema_changed}
use api_verity_lab.Diff.Change.{Piece, lit, Direction, request, response, Call, plain, Event, add}

-- the parameters `operation_key`, `where`, `direction` and `path` of `_diff_schema`
pub record Site : Type 0 where
  pub operation_key : String
  pub place : String
  pub direction : Direction
  pub path : String

-- label = f"{where}{path}"
abbrev pub label : Site → String
label s = s.place <> s.path

-- the site of a child: path=f"{path}{segment}"
abbrev pub below : Site → String → Site
below s segment = record s { path = s.path <> segment }

abbrev pub is_request : Direction → Bool
is_request request = true
is_request _ = false

abbrev pub is_response : Direction → Bool
is_response response = true
is_response _ = false

-- a call at the site whose description begins with the label
abbrev pub noted : ChangeKind → Site → String → List Piece → Call
noted kind s first rest = plain kind s.operation_key s.direction (lit (label s <> first) ∷ rest)

-- if changed: self._add(...)
abbrev pub when : Bool → Call → List Event
when true c = add c ∷ []
when false c = []

-- `REQUEST_SCHEMA_CHANGED if direction == "request" else RESPONSE_SCHEMA_CHANGED`
abbrev pub schema_changed : Direction → ChangeKind
schema_changed d = if is_request d then request_schema_changed else response_schema_changed

-- a breaking hint that is one text
abbrev pub hint : String → Option (List Piece)
hint s = some (lit s ∷ [])

abbrev pub hint_if : Bool → String → Option (List Piece)
hint_if true s = hint s
hint_if false s = none

-- the values of the fields of a node, as `Any`
abbrev pub opt_text : Option String → Value
opt_text none = null
opt_text (some s) = text s

abbrev pub opt_number : Option Number → Value
opt_number none = null
opt_number (some n) = number n

abbrev pub opt_bool : Option Bool → Value
opt_bool none = null
opt_bool (some b) = bool b

abbrev pub nat : ℕ → Value
nat n = number (record { negative = false; mantissa = n; scale = 0 })

abbrev pub values : List Value → Values
values [] = nil
values (v ∷ vs) = cons v (values vs)

abbrev pub texts : List String → Value
texts xs = list (values (map text xs))

abbrev pub opt_list : Option (List Value) → Value
opt_list none = null
opt_list (some vs) = list (values vs)

-- for x in xs: body(x)
unfoldable pub each {ℓ} : {A : Type ℓ} → (A → List Event) → List A → List Event
each body [] = []
each body (x ∷ xs) = body x ++ each body xs

-- the parts of a method, one after the other
unfoldable pub in_turn : List (List Event) → List Event
in_turn [] = []
in_turn (events ∷ rest) = events ++ in_turn rest

infixr 6 ◌⨾◌
pub data AllNil : List (List Event) → Type 0 where
  done : AllNil []
  ◌⨾◌ :
      {events : List Event} {rest : List (List Event)}
      → events ≡ []
      → AllNil rest
      → AllNil (events ∷ rest)

pub in_turn-nil : {parts : List (List Event)} → AllNil parts → in_turn parts ≡ []
unfolding in_turn
in_turn-nil done = refl
in_turn-nil (h ⨾ rest) = rw (h, in_turn-nil rest) refl

pub each-nil {ℓ} :
    {A : Type ℓ} (body : A → List Event)
    → ((x : A) → body x ≡ [])
    → (xs : List A) → each body xs ≡ []
unfolding each
each-nil body h [] = refl
each-nil body h (x ∷ xs) = simp (h x, each-nil body h xs)
