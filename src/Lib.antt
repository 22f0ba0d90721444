-- ===== src/Lib.antt =====
-- Verification of mcp-eval.
--
-- mcp-eval calls the tools of an MCP server, scores how ready the server is, gates a build on the
-- score and on its change, and follows each promoted finding until enough verification runs in a
-- row have passed. This library models the parts that decide: what is computed and stored, apart
-- from the processes, sockets, files and SQL statements that carry it.
--
-- The parts, by their paths from the repository's root:
--   Lifecycle   src/lifecycle.rs. `record` takes the outcome of one verification run. State holds
--               `State` and `transition`; Store the evidence and query databases as records, with
--               `attach`, `project` and `project_result` as functions that pass them on; Record
--               holds `record` (as `record_run`, since `record` is a keyword) and `prepare`;
--               Identity the bytes that `finding_id` hashes. An SQL statement is the function on
--               the rows that it names, and `INSERT OR IGNORE` skips what a key or a `CHECK`
--               refuses; a transaction that fails leaves the databases it had.
--   Budget      src/evaluation_budget.rs. The counters as a record with `check`, `acquire`,
--               `timeout` and `deadline`; Workers interleaves the workers' atomic steps, where a
--               relaxed load may read any older count and an exchange may fail for no reason.
--   Privacy     src/privacy.rs. The validators of the labels that may be stored, on bytes.
--   Json        serde_json's values, as far as the parts read and write them.
--   Standard    src/standard.rs and src/mcp_client.rs. The facts of a tool and its calls that the
--               score reads.
--   Score       src/score.rs. Area, CheckId and CheckReason hold the enums with their labels; Curve,
--               Areas and Reliability score the areas; Fold folds them into a `Readiness`.
--   Measurement, Probe
--               src/measurement.rs, src/probe.rs, src/manifest.rs. The measurement profile, the
--               failure reasons and the probe kinds with the labels that reports write them with.
--               Probe/Report holds the reports of src/probe/report.rs with their outcome, and the
--               exit code that src/main.rs and src/exit.rs give for one.
--   Gate        src/readiness_gate.rs. The floors on a readiness: `validate`, `evaluate` with its
--               shortfalls, and in Gate/Wire the JSON form of the gate.
--   Diff        src/diff.rs. Cases matches two reports, Movement compares their readiness, Report
--               holds `diff`, its counts and the two gates.
--   Frame       src/frame.rs. `read_line` on the bytes of an input, `encode` over the byte strings
--               that serde_json's serializer writes, and `is_json_rpc_message`.
--   Catalog     src/mcp_client.rs. The entries and pages of `tools/list` and the loop over the pages
--               of a server, `page_catalog`; a request is a parameter that passes a state on.
--   Contract    src/catalog_contract.rs. Changes holds the contracts and the kinds of change,
--               Compare `compare`, Wire the JSON form (`to_json` as contract_json, `from_json` as
--               contract_from_json), Constraints what `ToolContract::of` and `CatalogContract::of`
--               compute (contract_of, catalog_contract).
--   Arguments   src/standard.rs and src/tool_arguments.rs. Spend holds `InputBudget`, Synthesis
--               `synthesize` and `invalid_arguments`, Supplied the arguments that a caller gives.
--   Battery     src/standard.rs. Server is the record of what the battery uses of a client, with
--               the reconnections; Calls the calls of one tool, Protocol the protocol checks,
--               Observe `observe` with its rounds. Keeps and Safe carry a property of the server's
--               world through the battery; Logged applies them to a record of what is done to
--               the server, Tally and Counts keep one of the calls of a tool and their results.
--   Shape       src/shape.rs. `EnumIndex` with `learn` and `is_enum`, and the shape that is stored
--               in place of a value (`of` as shape).
--   Correlate   src/correlate.rs. `Correlator` with on_outbound, on_inbound and on_unparsed as
--               functions on its state; a time is an argument.
--   Prelude     the shared types, list functions and results, passed on by name.
--
-- They meet as in the program: Battery lists a Catalog, builds Arguments and calls the tools, and
-- returns the observations that Score reads, with the Contract of the catalog; Gate and Diff read
-- what Score folds and the vocabulary of Probe and Measurement; Correlate keeps the Shape of what it
-- records; Lifecycle, Frame, Catalog, Contract and Correlate check their labels with Privacy.
--
-- Machine numbers: a u64 or usize that the code only counts up is a natural number, since no run
-- reaches 2^64 of it. `f64` is the record `Floats` (Score/Floats) of the operations the score uses,
-- with the laws in `FloatLaws`: counts and their products are exact, a clamped number stays in its
-- range, and the ratio of two counts rounds to the integer it is nearest to.
-- Score/Rationals gives exact fractions as an instance, and the examples run on it.
-- No definition runs out of fuel where the program goes on: the loops recur on a list, on a byte
-- count, or on the program's own bound (20 pages, 3 calls, 8 levels of a schema, 8 references).
--
-- Parameters, since their code is not part of the repository: UUID and URL parsing, the public
-- suffix list, SHA-256, `f64`, the bytes that serde_json serializes a value to, its JSON pointers,
-- and the validation of jsonschema. Times are inputs. The battery's server is a parameter too: any
-- functions on any state, the probe cases among them.
--
-- Not modelled: processes and transports, the SQL engine, rendering of reports, argument parsing,
-- the probe cases themselves (operations of the battery's server), the query server, and the
-- recording shim.
mod Prelude
pub mod Privacy
pub mod Lifecycle
pub mod Budget
pub mod Json
pub mod Score
pub mod Standard
pub mod Measurement
pub mod Catalog
pub mod Contract
pub mod Arguments
pub mod Battery
pub mod Shape
pub mod Correlate
pub mod Frame
pub mod Gate
pub mod Diff
pub mod Probe
