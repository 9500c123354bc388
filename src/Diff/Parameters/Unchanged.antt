-- ===== src/Diff/Parameters/Unchanged.antt =====
-- `_diff_parameters` and `_diff_grpc_signature` of apiverity/diff/engine.py on one operation twice.
use api_verity_lab.Common.{
  String, [], ◌≡◌, arith, ==_refl, keys, get, dict_of, text_ord, bool_ord, pair_ord,
}
use api_verity_lab.Model.Operation.{Parameter, Operation}
use api_verity_lab.Diff.Site.{each-nil, in_turn-nil, done, ◌⨾◌}
use api_verity_lab.Diff.Media.Unchanged.{at_both_self, each_only-nil, compare_schemas_self}
use api_verity_lab.Diff.Parameters.{
  schema_summary, by_ident, requiredness_events, parameter_schema_events, parameter_pair,
  diff_parameters, diff_grpc_signature,
}

module _ (key : String) where
  requiredness_self :
      (ident : String × String) (p : Parameter) → requiredness_events key ident p p ≡ []
  unfolding requiredness_events
  requiredness_self ident p = simp (==_refl)

  schema_self :
      (ident : String × String) (p : Parameter) → parameter_schema_events key ident p p ≡ []
  unfolding parameter_schema_events
  schema_self ident p =
      rw (==_refl (schema_summary p.schema_node))
        (at_both_self p.schema_node _ (λ n. compare_schemas_self n _ _ _))

  parameter_self : (ident : String × String) (p : Parameter) → parameter_pair key ident p p ≡ []
  unfolding parameter_pair
  parameter_self ident p = in_turn-nil (requiredness_self ident p ⨾ schema_self ident p ⨾ done)

  pub diff_parameters_self : (op : Operation) → diff_parameters key op op ≡ []
  unfolding diff_parameters
  diff_parameters_self op =
      let ps = dict_of (by_ident op.parameters) in
      in_turn-nil (
        each_only-nil _ (keys ps)
        ⨾ each_only-nil _ (keys ps)
        ⨾ each-nil _ (λ ident. at_both_self (get ident ps) _ (parameter_self ident)) _
        ⨾ done)

pub diff_grpc_signature_self : (op : Operation) (key : String) → diff_grpc_signature op op key ≡ []
unfolding diff_grpc_signature
diff_grpc_signature_self op key =
    ground (arith, ==_refl op.client_streaming, ==_refl op.server_streaming)
