-- ===== src/Diff/Responses/Unchanged.antt =====
-- `_diff_responses` of apiverity/diff/engine.py on one operation twice.
use api_verity_lab.Common.{
  String, List, [], ◌≡◌, refl, only_in_self, sorted_set, keys, dict_of, text_ord,
}
use api_verity_lab.Model.Operation.{Response, Operation}
use api_verity_lab.Diff.Site.{each, in_turn-nil, done, ◌⨾◌}
use api_verity_lab.Diff.Media.Unchanged.{
  each_only-nil, each_both-nil, compare_schemas_self, diff_streaming_self,
}
use api_verity_lab.Diff.Responses.{by_status, in_one, response_pair, diff_responses}

in_one_self : (key : String) (xs : List String) → in_one key xs xs ≡ []
in_one_self key xs = rw (only_in_self xs) (unfold sorted_set in refl)

module _ (key : String) where
  response_self : (status : String) (r : Response) → response_pair key status r r ≡ []
  unfolding response_pair
  response_self status r = in_turn-nil (
      each_only-nil _ (keys r.headers)
      ⨾ each_only-nil _ (keys r.headers)
      ⨾ each_both-nil r.content _ _ (λ media n. compare_schemas_self n _ _ _)
      ⨾ rw (in_one_self key (keys r.content)) (unfold each in refl)
      ⨾ diff_streaming_self key _ _ r.streaming r.content
      ⨾ done)

  pub diff_responses_self : (op : Operation) → diff_responses key op op ≡ []
  unfolding diff_responses
  diff_responses_self op =
      let rs = dict_of (by_status op.responses) in
      in_turn-nil (
        each_only-nil _ (keys rs)
        ⨾ each_only-nil _ (keys rs)
        ⨾ each_both-nil rs _ _ response_self
        ⨾ done)
