-- ===== src/Diff/Media.antt =====
-- `_diff_streaming`, `_payload_direction`, `_diff_request_body` and `_diff_responses` of
-- apiverity/diff/engine.py.
pub mod Unchanged
use api_verity_lab.Common.{
  ℕ, String, ◌<>◌, Bool, true, false, not, ◌&&◌, Option, none, some, List, [], ◌∷◌, ◌++◌, ◌==◌,
  text_ord, nat_ord, bool_ord, option_ord, if◌then◌else◌, any, length, only_in, in_both, in_either,
  keys, get, is_some,
}
use api_verity_lab.Common.Text.{print}
use api_verity_lab.Model.Value.{text}
use api_verity_lab.Model.Schema.{SchemaNode, SourceLocation}
use api_verity_lab.Model.Operation.{
  Encoding, StreamingMedia, RequestBody, event, is_kind, Operation, shown, is_sequential_media,
}
use api_verity_lab.Diff.Kind.{stream_shape_changed, request_schema_changed}
use api_verity_lab.Diff.Change.{lit, repr, Direction, request, response, plain, Event, add}
use api_verity_lab.Diff.Site.{is_response, when, hint, hint_if, texts, nat, opt_text, each, in_turn}
use api_verity_lab.Diff.Schema.{diff_schema}

-- `_diff_schema(old, new, key, where, direction)`
unfoldable pub compare_schemas : SchemaNode → SchemaNode → String → String → Direction → List Event
compare_schemas old new key place direction =
    diff_schema old new
      (record { operation_key = key; place = place; direction = direction; path = "" })

-- the values of a dict at a key of both, or nothing
unfoldable pub at_both {ℓ} : {V : Type ℓ} → Option V → Option V → (V → V → List Event) → List Event
at_both (some old) (some new) body = body old new
at_both _ _ body = []

module _ (key place : String) (direction : Direction) where
  -- the schema of one item came, went or changed
  item_schema_events : String → Option SchemaNode → Option SchemaNode → List Event
  unfolding compare_schemas
  item_schema_events media (some old) (some new) =
      compare_schemas old new key (place <> " stream item (" <> media <> ")") direction
  item_schema_events media (some old) none =
      add
        (record (plain stream_shape_changed key direction
          (lit (place <> " '" <> media <> "' no longer declares `itemSchema`") ∷ [])) {
            old_value = text "itemSchema";
            breaking_hint =
                hint
                  "nothing describes one item any more, so no rule, mock or drift check can see the payload";
          })
      ∷ []
  item_schema_events media none (some new) =
      add
        (record (plain stream_shape_changed key direction
          (lit (place <> " '" <> media <> "' now declares `itemSchema`") ∷ [])) {
            new_value = text "itemSchema";
          })
      ∷ []
  item_schema_events media none none = []

  encoding_event : String → String → Encoding → Encoding → List Event
  encoding_event media name old new =
      let what = if name == "" then "the item" else "'" <> name <> "'" in
      when (not (old.content_type == new.content_type))
        (record (plain stream_shape_changed key direction (
          lit (
            place
            <> " '"
            <> media
            <> "': encoding for "
            <> what
            <> " changed "
            <> shown old.content_type
            <> " -> "
            <> shown new.content_type)
          ∷ [])) {
            old_value = opt_text old.content_type;
            new_value = opt_text new.content_type;
            breaking_hint = hint "the part still arrives and the parser on the other side fails";
          })

  prefix_event : String → ℕ → ℕ → List Event
  prefix_event media old new =
      when (not (old == new))
        (record (plain stream_shape_changed key direction (
          lit (
            place
            <> " '"
            <> media
            <> "': the number of leading parts changed "
            <> print old
            <> " -> "
            <> print new)
          ∷ [])) {
            old_value = nat old;
            new_value = nat new;
            breaking_hint =
                hint
                  "`prefixEncoding` is positional, so a reader counting parts reads the wrong one from here on";
          })

  media_events : String → StreamingMedia → StreamingMedia → List Event
  unfolding item_schema_events encoding_event prefix_event
  media_events media old new = in_turn (
      item_schema_events media old.item_schema new.item_schema
      ∷ each
          (λ name.
            at_both (get name old.item_encoding) (get name new.item_encoding)
              (encoding_event media name))
          (in_both (keys old.item_encoding) (keys new.item_encoding))
      ∷ prefix_event media (length old.prefix_encoding) (length new.prefix_encoding)
      ∷ [])

  -- the media types of one side, sorted
  abbrev media_types : List (String × StreamingMedia) → List (String × SchemaNode) → List String
  media_types streaming content = in_either (keys content) (keys streaming)

  abbrev is_nil : List String → Bool
  is_nil [] = true
  is_nil (x ∷ xs) = false

  shape_event : List String → List String → List Event
  shape_event old new =
      let became = any is_sequential_media new in
      when (not (is_nil old) && not (is_nil new) && not (any is_sequential_media old == became))
        (record (plain stream_shape_changed key direction (
          lit (
            place
            <> " changed from "
            <> (if became
                then "a single document to a sequence of items"
                else "a sequence of items to a single document")
            <> " (")
          ∷ repr (texts old)
          ∷ lit " -> "
          ∷ repr (texts new)
          ∷ lit ")"
          ∷ [])) {
            old_value = texts old;
            new_value = texts new;
            breaking_hint =
                hint
                  "every client has to be rewritten: one waits for the body to end and parses once, the other parses an item at a time";
          })

  unfoldable pub diff_streaming :
      (old_streaming new_streaming : List (String × StreamingMedia))
      (old_content new_content : List (String × SchemaNode))
      → List Event
  unfolding media_events shape_event
  diff_streaming old_streaming new_streaming old_content new_content =
      each
        (λ media. at_both (get media old_streaming) (get media new_streaming) (media_events media))
        (in_both (keys old_streaming) (keys new_streaming))
      ++ shape_event (media_types old_streaming old_content) (media_types new_streaming new_content)

-- Which compatibility rules a payload is judged by.
unfoldable pub payload_direction : Operation → Direction
payload_direction op =
    if is_kind op.kind event && op.direction == some "send" then response else request

-- x.source_location if x else None
abbrev body_location : Option RequestBody → Option SourceLocation
body_location none = none
body_location (some b) = b.source_location

module _ (key : String) where
  body_removed : RequestBody → List Event
  body_removed old =
      add (record (plain request_schema_changed key request (lit "request body removed" ∷ [])) {
        old_location = old.source_location;
        breaking_hint = hint "request body removed: clients sending bodies may break";
      })
      ∷ []

  body_added : RequestBody → List Event
  body_added new =
      add (record (plain request_schema_changed key request (lit "request body added" ∷ [])) {
        new_location = new.source_location;
        breaking_hint = hint_if new.required "request body added and required";
      })
      ∷ []

  media_removed : String → List Event
  media_removed media =
      add
        (record (plain request_schema_changed key request
          (lit ("request media type '" <> media <> "' removed") ∷ [])) {
            old_value = text media;
            breaking_hint = hint (
                "clients sending Content-Type: " <> media
                <> " will be rejected; keep accepting it or version the operation");
          })
      ∷ []

  media_added : String → List Event
  media_added media =
      add
        (record (plain request_schema_changed key request
          (lit ("request media type '" <> media <> "' added") ∷ [])) { new_value = text media })
      ∷ []

  -- f"{b}" of a bool
  abbrev shown_bool : Bool → String
  shown_bool true = "True"
  shown_bool false = "False"

  body_changed : Direction → RequestBody → RequestBody → List Event
  unfolding media_removed media_added compare_schemas
  body_changed direction old new =
      let payload = if is_response direction then "message payload" else "request body" in
      in_turn (
        each
          (λ media. at_both (get media old.content) (get media new.content) (λ before after.
            compare_schemas before after key (payload <> " (" <> media <> ")") direction))
          (in_both (keys old.content) (keys new.content))
        ∷ each media_removed (only_in (keys old.content) (keys new.content))
        ∷ each media_added (only_in (keys new.content) (keys old.content))
        ∷ diff_streaming key payload direction old.streaming new.streaming old.content new.content
        ∷ when (not (old.required == new.required))
            (record (plain request_schema_changed key request (
              lit (
                "request body requiredness changed "
                <> shown_bool old.required
                <> " -> "
                <> shown_bool new.required)
              ∷ [])) { breaking_hint = hint_if new.required "request body became required" })
        ∷ [])

  body_events : Direction → Option RequestBody → Option RequestBody → List Event
  unfolding body_removed body_added body_changed
  body_events direction none none = []
  body_events direction (some old) none = body_removed old
  body_events direction none (some new) = body_added new
  body_events direction (some old) (some new) = body_changed direction old new

  unfoldable pub diff_request_body : Operation → Operation → List Event
  unfolding body_events
  diff_request_body old new =
      body_events (payload_direction (if is_some new.request_body then new else old))
        old.request_body new.request_body
