-- ===== src/Lib.antt =====
-- The contract differ of API Verity Lab, the policies that read its result, and the server around
-- them.
--
-- The program compiles an API description (OpenAPI, gRPC, MCP, WSDL and others) into a protocol-
-- neutral contract, compares two contracts into a list of changes, judges the changes by rules into
-- findings, and gates a build on the findings. A server keeps contracts, runs and verifications of
-- several organizations, and answers whether a version may be deployed. This development models,
-- from the repository's Python:
--
-- - apiverity/core/model.py, the contract: Model. Value holds what `Any` fields hold (JSON), Schema
--   the tree of `SchemaNode`, Operation the operations and services with `Operation.key`, Finding
--   the findings. Repr is Python's `repr` of a value, which the descriptions of changes show.
-- - apiverity/diff/engine.py, the differ: Diff. Each method of `DiffEngine` is a function that gives
--   the calls of `_add` that the method makes, in order, as a list of `Event`; where Python raises
--   `TypeError` the list holds `raise_type_error`. Change models `_add` itself: the state of the
--   engine is its list of changes and its counters, `add_change` is one call, and `perform` runs a
--   list of events and gives nothing if one raises. Kind lists the kinds of change, Site says where
--   in a schema a comparison stands. `_diff_schema` and `_diff_2020_12` are Schema, with Facts,
--   Enum, Members, Protobuf and Keywords for the parts that look at no child; `_diff_parameters` and
--   `_diff_grpc_signature` are Parameters; `_diff_request_body` and `_diff_streaming` are Media;
--   `_diff_responses` is Responses; `_diff_mcp_tool` and `_diff_soap_operation` are Tools;
--   `_diff_operation` and `_diff_security` are Operations; `run` and `_diff_mcp_manifest` are Run.
-- - apiverity/rules/breaking.py: Rules.Breaking, which gives each change its rule, with
--   Rules.Catalog for the rules' severities, Rules.Wording for the tests on descriptions and
--   Rules.Constraints for the tests on values. A `KeyError` of the catalog, a `ValueError` of an
--   override and the `TypeError` of a set of members without a hash are `none`.
-- - apiverity/rules/semver.py: Rules.Semver, over an interface for `packaging.version.Version`.
-- - apiverity/rules/suppressions.py: Rules.Suppressions. A day is its ordinal.
-- - apiverity/rules/budget.py: Rules.Budget, `observe`, `busiest_window`, `parse_window` and
--   `evaluate`. The slice of instants from `start` to `end` is kept as a list; `evaluate` is `none`
--   where it raises, for a window that cannot be read or for times with a zone among times without.
-- - apiverity/runtime/monitor.py: Runtime.Monitor. The loops of `apply_run` change a record of the
--   transitions, the crossings and the carried findings.
-- - apiverity/core/artifact.py: Core.Artifact, the hash of a contract over its bytes.
-- - apiverity/server/audit_export.py and the audit log of apiverity/server/store.py: Server.Audit,
--   the log as its table and its last id, `audit_append` and the walk of `verify_chain`;
--   Server.Export, the document that `build_export` makes and `verify_export` with `_continuity`.
-- - apiverity/server/freeze.py and the freezes of the store: Server.Freeze.
-- - apiverity/server/jobs.py and the runs of the store: Server.Jobs over Server.Runs. A table is the
--   list of its rows in the order of their ids; Server.Rows has the searches and updates.
-- - apiverity/server/decision.py: Server.Decision. apiverity/server/auth.py: Server.Auth.
-- - apiverity/stateful/graph.py and models.py: Stateful.Variables, the variables of a text,
--   Stateful.Graph, the validation of a workflow, and Stateful.Cycle, the search for a cycle, whose
--   colors are a dict that each visit is given and returns.
-- - apiverity/fuzz/minimize.py: Fuzz.Minimize. The server under test and the check of its response
--   are a function of the number of requests so far and the body.
-- - apiverity/lsp/protocol.py: Lsp.Protocol, over a stream that is the list of the bytes left in it,
--   and the main loop of apiverity/lsp/server.py: Lsp.Serve.
--
-- The differ takes a `Service` and gives `Change`s, the breaking rules turn changes into findings,
-- and the version policy and the suppressions read changes and findings; the monitor reads the
-- findings of successive runs. On the server, a freeze and its lift are entries of the audit log,
-- the jobs of the queue are the runs whose verifications the deploy decision counts, and the
-- decision asks the freezes first. Of the methods of the store that have several statements,
-- `freeze`, `lift_freeze` and `audit_append` hold its lock across them, and are one step here;
-- `claim_next_run` is one UPDATE. `JobQueue.enqueue`, `complete` and `cancel` and `Store.cancel_run`
-- are several statements without a lock: the results on sequences of calls of the queue are about
-- calls that do not overlap, while Server.Jobs.Threads has the statements of several threads in any
-- order, as a step relation. The times that a method reads are its arguments.
--
-- Common holds what these share: ordered types and `sorted(set(xs))`, dicts as association lists,
-- `str` methods over ASCII, and decimal printing. All recursion is structural, except that printing
-- a number takes one more step of fuel than the number, and a number has fewer digits than that;
-- that minimizing takes a round for each field of the body and one more, of which each but the last
-- drops a field; that the search for a cycle goes no deeper than there are steps and one more, since
-- each step down colors a white node; and that the loop of the language server takes as much fuel as
-- it is given, where one more than the bytes of its input is enough, since every message takes a
-- byte at least.
--
-- Parameters of the model: the digest of hashlib, pydantic's `model_dump_json`, packaging's
-- versions, `date.fromisoformat`, `datetime.fromisoformat` and `isoformat`, the reading of a file,
-- json.loads and json.dumps, the canonical bytes of an export and their HMAC, the clock, and the
-- server that minimizing asks. Not modelled: the loaders, canonicalization, `Store.purge_older_than`
-- and with it rows that disappear, the exceptions that an export raises whose entries lack a field
-- or have one of another type, a path with a zero character, the other rules, the other tables of
-- the store, the HTTP routes, the handlers of the language server, rendering, and the command line.
-- Texts are compared by code points; the white space of `strip` is that of ASCII, and so are upper
-- and lower case, which the kinds of change, HTTP methods and media types keep to. Numbers in
-- schemas are exact decimals.
pub mod Common
pub mod Model
pub mod Diff
pub mod Rules
pub mod Runtime
pub mod Core
pub mod Server
pub mod Stateful
pub mod Fuzz
pub mod Lsp
pub mod Tests
