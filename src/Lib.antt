-- ===== src/Lib.antt =====
-- Openfrag watches a game, saves the plays worth keeping and reviews them. This library models the
-- parts of it that decide: what the game's state messages mean, when a replay is saved, which
-- candidates are one highlight, what may become of a clip, and how a match is rated.
--
-- The parts, and where they are modelled:
--
-- * The GSI service, crates/openfrag-gsi/src/lib.rs. `Gsi/Wire` has the payload and the evidence
--   made of it, `Gsi/Transition` the comparison of two snapshots (`derive_transition`,
--   `session_reset`), `Gsi/Engine/State` the state `EngineState`, `Gsi/Engine` the operations on it,
--   `poll_stale` and `route_post`, with the test on the media type in `Gsi/Engine/MediaType`. The
--   handler is cut where the code reads something: `route_post` tests the media type,
--   `route_payload` the payload, `observe` is what happens under the lock, and `commit` the writes
--   once the sink has taken the receipt.
-- * The highlight rules, crates/openfrag-domain/src/highlight.rs. `Highlight/Candidate` has
--   `HighlightCandidate` with `can_merge` and `merged`, `Highlight/Merge` the loop of
--   `merge_candidates`, `Highlight/Capture` the final labels and the windows, and
--   `Highlight/Retention` `retention_decisions`.
-- * Exact arithmetic, crates/openfrag-domain/src/exact.rs. `Exact/Rational` has `Rational` with its
--   checked operations, `UnitInterval` and `RatingBasisPoints`, and `Exact/Gcd` the greatest common
--   divisor. `Exact/Fraction` has the rational numbers as fractions up to cross-multiplication,
--   which the checked operations are compared with.
-- * The rating, crates/openfrag-domain/src/rating.rs. `Rating/Model` has its data,
--   `Rating/Components` `component_vector`, `weighted_rating` and `component_receipts`, and
--   `Rating/Calculation` `calculate_rating`, cut into `unavailable_reason`, the rating itself
--   (`rate`, `points_of`), and what the receipt says of it (`preview_reasons`, `exclusions_of`).
-- * A player's history, crates/openfrag-domain/src/baseline.rs. `Baseline/Model` has its matches with
--   `cohort_reason` and `match_value`, `Baseline/Sessions` `group_sessions`, `Baseline/Statistics`
--   `median` and `robust_stats`, `Baseline/Cohort` `build_lens` with `finalize_baseline`, and
--   `Baseline/Goals` `evaluate_goal`.
-- * The reconciliation of captures with a demo, crates/openfrag-pipeline/src/reconcile.rs.
--   `Reconcile/Demo` has what it reads of a parsed demo, `Reconcile/Evidence` `clutch_opponents`,
--   `team_at` and `is_knife`, `Reconcile/Decision` `evaluate`, whose loop over the deaths is
--   `tally_events`, and `Reconcile/Persistence` `reconcile_demo_candidates`.
-- * The recorder supervisor, crates/openfrag-capture/src/lib.rs. `Capture/Launch` has the command
--   line, `Capture/Supervisor` the state, with `Save` for `request_save`, `acknowledge` and
--   `discover_save`, and `Poll` for `poll`, `append_stderr`, `restart_delay` and `shutdown`.
-- * The clips, crates/openfrag-clips/src/lib.rs. `Clips/Model` has the clip and its rehydration,
--   `Clips/Review` `review_clip` and `reject_clip`, `Clips/Filename` the sanitising of names and
--   `Clips/Export` `export_clip`.
-- * The live coordinator, crates/openfrag-live/src/lib.rs, in `Live`. It takes the receipts of the
--   GSI service, makes candidates of them by the highlight rules and asks the recorder for saves:
--   `Live/Coordinator/Ingest` has `ingest`, `Captures` what it calls, `Saves` the timers, the
--   retries and the manual flags.
-- * The Manual Flag shortcut, crates/openfrag-shortcuts/src/lib.rs, in `Shortcuts`.
-- * The setup flow, crates/openfrag-setup/src/setup_flow.rs, in `Setup`.
--
-- `Common` has what they share: texts as their UTF-8 bytes, paths as components, results, the
-- machine integers with their wrap-around and saturation, ordered sets and maps as lists, and
-- what sorting a list keeps of it.
--
-- How the code is rendered. A method is a function of the record that holds the object's fields,
-- and returns the record and the method's result, so that an early return keeps what was written
-- before it. What lies outside is a parameter: SHA-256, the repository of clips, the file system
-- of the export and the persistence of the reconciliation are functions, the four traits of the
-- coordinator are the record `World` of functions on a state of all that lies outside, and for
-- the GSI service, the supervisor and the shortcut each call takes the answers that it may ask
-- for. A payload is what `serde_json` returns. Hash maps and ordered sets are lists. A sequence
-- of calls is a list, since a mutex or an exclusive borrow orders them.
--
-- Bounds and fuel. `gcd_loop` gets one step more than its right argument, which is smaller in
-- each step. The products and sums that `normalize` is given stay within an `i128`, so that they
-- are integers without a bound here; what it returns is tested against the bounds of an `i64`.
-- Metrics are `u32` values in the code, whose multiples an `i64` holds. `merge_rounds` gets a
-- round for each candidate, and each round leaves one fewer. `export_from` counts the collision
-- indices that are left in a `u32`, as `checked_add` does. `round_ends` counts the rounds left in
-- the range. Durations are numbers of nanoseconds or milliseconds, as the code uses them.
--
-- Not modelled: the adapters to the operating system, the desktop portal and the database, the
-- daemon's wiring, the demo parser, which is third-party code, and so far
-- the analysis, the stages of the import pipeline and clip derivatives.
pub mod Common
pub mod Gsi
pub mod Exact
pub mod Rating
pub mod Baseline
pub mod Reconcile
pub mod Highlight
pub mod Capture
pub mod Clips
pub mod Shortcuts
pub mod Setup
pub mod Live
