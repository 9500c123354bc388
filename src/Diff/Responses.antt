-- ===== src/Diff/Responses.antt =====
-- `_diff_responses` of apiverity/diff/engine.py.
pub mod Unchanged
use api_verity_lab.Common.{
  String, ◌<>◌, Option, none, some, List, [], ◌∷◌, ◌++◌, text_ord, if◌then◌else◌, contains, only_in,
  in_both, sorted_set, keys, get, dict_of,
}
use api_verity_lab.Model.Schema.{SourceLocation}
use api_verity_lab.Model.Operation.{Response, Operation}
use api_verity_lab.Diff.Kind.{
  response_schema_changed, response_removed, response_added, header_removed, header_added,
}
use api_verity_lab.Diff.Change.{lit, response, plain, Event, add}
use api_verity_lab.Diff.Site.{hint, each, in_turn}
use api_verity_lab.Diff.Media.{compare_schemas, at_both, diff_streaming}

-- {r.status: r for r in responses}
by_status : List Response → List (String × Response)
by_status [] = []
by_status (r ∷ rest) = (r.status, r) ∷ by_status rest

abbrev pub response_location : Option Response → Option SourceLocation
response_location none = none
response_location (some r) = r.source_location

module _ (key : String) where
  status_removed : List (String × Response) → String → List Event
  status_removed old status =
      add
        (record (plain response_removed key response
          (lit ("response status '" <> status <> "' was removed") ∷ [])) {
            old_location = response_location (get status old);
            breaking_hint = hint "clients handling this status will encounter undeclared responses";
          })
      ∷ []

  status_added : List (String × Response) → String → List Event
  status_added new status =
      add
        (record (plain response_added key response
          (lit ("response status '" <> status <> "' was added") ∷ [])) {
            new_location = response_location (get status new);
          })
      ∷ []

  header_gone : String → Response → String → List Event
  header_gone status old header =
      add
        (record (plain header_removed key response
          (lit ("response " <> status <> " header '" <> header <> "' was removed") ∷ [])) {
            old_location = old.source_location;
          })
      ∷ []

  header_new : String → Response → String → List Event
  header_new status new header =
      add
        (record (plain header_added key response
          (lit ("response " <> status <> " header '" <> header <> "' was added") ∷ [])) {
            new_location = new.source_location;
          })
      ∷ []

  media_moved : String → List String → String → List Event
  media_moved status old media =
      add (
        plain response_schema_changed key response (
          lit (
            "response "
            <> status
            <> " media type '"
            <> media
            <> "' "
            <> (if contains media old then "removed" else "added"))
          ∷ []))
      ∷ []

  -- sorted(set(xs) ^ set(ys))
  abbrev in_one : List String → List String → List String
  in_one xs ys = sorted_set (only_in xs ys ++ only_in ys xs)

  response_pair : String → Response → Response → List Event
  unfolding header_gone header_new media_moved
  response_pair status old new = in_turn (
      each (header_gone status old) (only_in (keys old.headers) (keys new.headers))
      ∷ each (header_new status new) (only_in (keys new.headers) (keys old.headers))
      ∷ each
          (λ media. at_both (get media old.content) (get media new.content) (λ before after.
            compare_schemas before after key ("response " <> status <> " body (" <> media <> ")")
              response))
          (in_both (keys old.content) (keys new.content))
      ∷ each (media_moved status (keys old.content)) (in_one (keys old.content) (keys new.content))
      ∷ diff_streaming key ("response " <> status) response old.streaming new.streaming old.content
          new.content
      ∷ [])

  unfoldable pub diff_responses : Operation → Operation → List Event
  unfolding by_status status_removed status_added response_pair
  diff_responses old new =
      let old_r = dict_of (by_status old.responses) in
      let new_r = dict_of (by_status new.responses) in
      in_turn (
        each (status_removed old_r) (only_in (keys old_r) (keys new_r))
        ∷ each (status_added new_r) (only_in (keys new_r) (keys old_r))
        ∷ each (λ status. at_both (get status old_r) (get status new_r) (response_pair status))
            (in_both (keys old_r) (keys new_r))
        ∷ [])
