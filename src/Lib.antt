-- ===== src/Lib.antt =====
-- A model of the benchmark controller of Replaybook: the planning, running, resuming and summing up
-- of matrices of host-native trials, the phases of a trial, the sessions that run matrices in the
-- background, and the scores of published results.
--
-- The program is a set of Python scripts. integrations/host/benchmark_plan.py compares a benchmark
-- manifest with published and local coverage and plans the matrices that are still to be run.
-- integrations/host/run_host_matrix.py runs one matrix: it checks its arguments, makes a job for each
-- scenario, model, reasoning effort and attempt, runs a worker process for each job with bounded
-- concurrency, reads the result file of each trial, and writes a summary with an exit status. An
-- interrupted matrix is resumed from its result files. integrations/host/scenario_phase.py runs the
-- declared preflight and verification steps of a trial against the guest and keeps the ids it has
-- generated between them. integrations/host/benchmark_session.py starts matrices as detached workers,
-- guards them by locks and reports on them from the files of the matrix.
-- integrations/host/benchmark_scores.py makes scores from the aggregates of a release.
--
-- The files:
--   Prelude: shared types and lemmas: Boolean tests on numbers, lists, equality as an interface (Eq),
--     dicts, sorting, grouping, integers, texts, and Result for functions that may raise.
--   Json: the values of json.loads with the accesses, conversions and numbers of Python. Floats are a
--     parameter: a type with the operations of the record Floats, of which no law is assumed.
--   Manifest: benchmark_manifest.py. Load is load_benchmark_manifest behind the TOML parser, Valid what
--     it promises, Environment validate_environment; Pack is load_pack and
--     Discover the search for scenarios of scenario_pack.py.
--   Matrix: run_host_matrix.py. Slug is slugify; Jobs build_jobs and the port test of main; Results
--     load_result, completed_worker and what run_worker makes of a result file; Workers run_jobs and
--     run_worker as a pool whose tasks start, end and are interrupted in any order; Command the
--     command line of a worker; Resume build_resume_plan and verify_saved_result_versions; Retry
--     archive_unavailable_retry and prepare_pending_job, as resume_matrix runs them over the files;
--     Summary summarize_runs; Report build_summary and summary_exit_status; Args apply_benchmark_manifest, validate_args and validate_resume_args;
--     Setup the output directory and the key.
--   Plan: benchmark_plan.py. Lanes is provider_id, coverage_lanes and selected_lanes; Gaps
--     boundary_reason and plan_gaps; Sources the readers of its files; Evidence source_matches and
--     local_coverage; Commands build_commands; Estimate estimate; Whole build_plan.
--   Phase: scenario_phase.py. Values is the reading of a step's fields, the format of a template and the
--     match of a response; Steps the three kinds of steps and run_phase; Describe describe_manifest;
--     Program main. Files, Split, Concurrent, Replay and Ends are about the state directory, the
--     results of concurrent requests, the two steps that send them and the end of the loops.
--   Session: benchmark_session.py: matrix_report and session_report; Counted and Complete are about
--     completed matrices, Alive about the worker; Profile is load_profile, worker_identity and
--     resolve_target; Lifecycle launch_worker and run_session as a step relation, with Exclusive
--     about the locks and Matrices about the matrix processes.
--   Scores: benchmark_scores.py: score_release; Rates observed_scenario_rates and scenario_profiles.
--   Tests: the theorems at concrete inputs.
--
-- State is passed explicitly. An exception is a value of Error; the text of a ValueError is kept where
-- the program writes it. The disk, the clock and the processes are inputs: what stands at a path is a
-- Reading, the test for a file a function, and the worker pool takes a list of events, which it may
-- refuse. The HTTP server, the clock and the stamps of fresh ids of a phase are the record World. Loops
-- are structural recursion, those of build_jobs over the rounds left. Fuel stands in the print of a
-- number, where `decimal_step` shows that there is enough, and in the waiting and the replaying loop of
-- a phase, which the clock ends: Phase/Ends shows that a bound on the rounds before the deadline is
-- enough.
--
-- Where the model is narrower than the code: a saved base port below 0 is read as 0; benchmark.json has
-- the types that main gives it; letters are lowered as ASCII; the print of a float, list or dict as a
-- category or key raises; a result whose provider or effort is a number cannot be grouped; the attempts
-- of a manifest in benchmark_plan.py are the positive number that its loader admits; white space and
-- paths are those of ASCII texts and resolved paths.
--
-- The plain fields {phase} and {id} are what a template of a phase may hold; characters beyond ASCII
-- count as printable in repr, and as no letters in a path; a failure category that is no text raises in
-- the counts of a session; a release has the types that the publisher gives it. The step relation of a
-- session lets a worker be killed at any time, and its matrix process lives on until it ends. A result
-- file whose bytes are no text, and an exception of http.client that is no OSError, have no counterpart
-- among the inputs.
--
-- Not modelled: the staging and hashing of snapshots, main and the rest of resume_matrix of
-- run_host_matrix.py, the output of a worker, printed tables and reports, start_session, the cohorts,
-- and the other scripts of integrations/host (preflight, the catalog, publishing, submissions, the
-- proxy), the harbor tasks, the Rust program, the site and the test data. What resume_matrix writes
-- between the plan and the workers, other than the moves and removals of Retry, is not modelled.
pub mod Prelude
pub mod Json
pub mod Manifest
pub mod Matrix
pub mod Plan
pub mod Phase
pub mod Session
pub mod Scores
pub mod Tests
