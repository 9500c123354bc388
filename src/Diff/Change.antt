-- ===== src/Diff/Change.antt =====
-- The changes of apiverity/diff/engine.py, their construction by `DiffEngine._add`, and their ids.
use api_verity_lab.Common.{
  ℕ, zero, suc, ◌+◌, String, ◌<>◌, Option, none, some, List, [], ◌∷◌, ◌++◌, ◌==◌, text_ord,
  if◌then◌else◌,
}
use api_verity_lab.Common.Text.{upper, print, is_empty}
use api_verity_lab.Model.Value.{Value, null}
use api_verity_lab.Model.Schema.{SourceLocation}
use api_verity_lab.Diff.Kind.{ChangeKind, value}

-- One part of an f-string: its own text and the texts put into it, or a value that is shown by
-- Python's `repr`.
pub data Piece : Type 0 where
  lit : String → Piece
  repr : Value → Piece

pub data Direction : Type 0 where
  request response meta security : Direction

-- The arguments of a call of `_add`.
pub record Call : Type 0 where
  pub kind : ChangeKind
  pub operation_key : String
  pub direction : Direction
  pub description : List Piece
  pub old_value : Value
  pub new_value : Value
  pub old_location : Option SourceLocation
  pub new_location : Option SourceLocation
  pub breaking_hint : Option (List Piece)

-- a call with the keyword arguments left at their defaults
abbrev pub plain : ChangeKind → String → Direction → List Piece → Call
plain kind operation_key direction description = record {
  kind = kind;
  operation_key = operation_key;
  direction = direction;
  description = description;
  old_value = null;
  new_value = null;
  old_location = none;
  new_location = none;
  breaking_hint = none;
}

-- What a method of the engine does: it calls `_add`, or Python raises `TypeError`.
pub data Event : Type 0 where
  add : Call → Event
  raise_type_error : Event

pub record Change : Type 0 where
  pub id : String
  pub call : Call
  pub open call use *

-- s[:n]
unfoldable pub take_text : ℕ → String → String
take_text zero s = ""
take_text (suc n) String.[] = ""
take_text (suc n) (String.◌∷◌ c s) = String.◌∷◌ c (take_text n s)

pub record Engine : Type 0 where
  pub changes : List Change
  pub counters : List (String × ℕ)

abbrev pub fresh : Engine
fresh = record { changes = []; counters = [] }

-- self._counters.get(scope, 0)
unfoldable pub counter : String → List (String × ℕ) → ℕ
counter scope [] = 0
counter scope ((s, n) ∷ rest) = if s == scope then n else counter scope rest

-- self._counters[scope] = n
unfoldable pub set_counter : String → ℕ → List (String × ℕ) → List (String × ℕ)
set_counter scope n [] = (scope, n) ∷ []
set_counter scope n ((s, m) ∷ rest) =
    if s == scope then (s, n) ∷ rest else (s, m) ∷ set_counter scope n rest

-- `sha256` gives the hexadecimal digest of a text.
module _ (sha256 : String → String) where
  unfoldable pub operation_hash : String → String
  unfolding take_text is_empty
  operation_hash operation_key =
      if is_empty operation_key then "global" else take_text 8 (sha256 operation_key)

  unfoldable pub scope_of : Call → String
  unfolding operation_hash
  scope_of c = upper (value c.kind) <> ":" <> operation_hash c.operation_key

  unfoldable pub change_id : Call → ℕ → String
  unfolding operation_hash
  change_id c n =
      "CHG-" <> upper (value c.kind) <> "-" <> operation_hash c.operation_key <> "-" <> print n

  unfoldable pub add_change : Engine → Call → Engine
  unfolding counter set_counter scope_of change_id
  add_change engine c =
      let scope = scope_of c in
      let n = counter scope engine.counters + 1 in
      record {
        changes = engine.changes ++ record { id = change_id c n; call = c } ∷ [];
        counters = set_counter scope n engine.counters;
      }

  -- the calls, one after the other; nothing catches the exception
  unfoldable pub perform : Engine → List Event → Option Engine
  perform engine [] = some engine
  perform engine (raise_type_error ∷ rest) = none
  perform engine (add c ∷ rest) = perform (add_change engine c) rest
