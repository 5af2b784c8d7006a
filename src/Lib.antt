-- ===== src/Lib.antt =====
-- The core of piggyon, a planner that places freight orders on the slots of train services.
--
-- A scenario is an input snapshot (app/models/snapshot.py). The eligibility gate
-- (app/rules/eligibility.py) evaluates each order by itself and lists the slots it may take, or the
-- reason codes (app/rules/reason_codes.py) that exclude it. The solver (app/solver/baseline.py)
-- chooses among these candidates with CP-SAT, one objective after the other, and reports an outcome
-- for each order. The validator (app/validation/plan_validator.py) checks the plan again with rules
-- of its own. app/services/planning.py runs the three in a row; app/services/alternatives.py runs
-- them on a derived scenario, which an approved change opens to one order. The documents are kept in
-- the store (app/storage.py).
--
-- Files:
--   Base          lists, dictionaries with the order of insertion, stable sorting, integers
--   ReasonCodes   app/rules/reason_codes.py
--   Snapshot      app/models/snapshot.py: the records, `_references_resolve` (References), and the
--                 predicate it decides (Resolved, Accepts)
--   Eligibility   app/rules/eligibility.py: `_Index` (Lookup), `_validate_input`, `_check_service` and
--                 `_check_slot` (Checks), `_evaluate_order`, `evaluate_scenario`
--   Rules         the hard constraints as inequalities, and how the gate's and the validator's code
--                 relate to them (Gate, Recheck)
--   Baseline      app/solver/baseline.py: the interface of CP-SAT (Cp), `_build_outcomes` (Outcomes),
--                 `_Budget` and the stages (Stages), constraints (Problem), objectives (Objectives),
--                 `solve_baseline` (Solve); the sizes of objective values (Magnitude)
--   Validator     app/validation/plan_validator.py: `validate_plan` and its checks (Checks)
--   Planning      app/services/planning.py: `run_baseline`, `build_validation_result`
--   Alternatives  app/services/alternatives.py: `build_change_set` (Changes), `derive_snapshot` (Derive),
--                 `_assignment_deltas` and `apply_to_baseline` (Deltas), `search_alternative` (Search)
--   Storage       app/storage.py: `MemoryStore`, and the finite maps it stands for (Abstract)
--   Errors        app/errors.py: the codes and statuses
--   Scenarios     app/routers/scenarios.py: `validate_scenario`, `create_run`, `delete_scenario`;
--                 `create_scenario` (Creation); the lists and the reads (Reads)
--   Runs          app/routers/runs.py: `get_run`, `create_alternative`, `create_decision`,
--                 `export_run`; the bodies of the responses (Replies)
--   Api           the endpoints together: how ids are made (Ids), what holds of a store
--                 (Consistency), and the stores that calls of the API lead to (Reachable)
--   Ai            app/ai: the values of JSON (Json), the patterns (Patterns) and the guard
--                 `rejection_reason_for_text` (Guard), `build_cards` (Explain), `answer_question`
--                 (Answer), `build_suggestions` (Suggest)
--   Samples       a small scenario, a small solver, and the theorems applied to them
--
-- How the code is modelled. Texts are the native strings, numbers the native naturals, and
-- priority scores and objective values integers; Python's integers have no bound, so none wraps
-- around. An instant is its number of microseconds, and `arrival_left` of a service is what is
-- left of the calendar after its arrival, past which a sum of dates raises. An exception, of a
-- lookup, of the arithmetic of dates or of a number that is too large for the 64 bits of CP-SAT,
-- is `none`, or the constructor `raised`; whether an evaluation, a model or a check of a plan
-- raises is decided before it computes anything (`any_raises`, `posable`, `plan_raises`), as none
-- of them changes any state. `IsInRange` (Planning/Range) collects the ranges in which none of
-- this happens. Every loop of the code runs over a list and is structural recursion, without
-- fuel; only the decimal digits of a number n are made with fuel n + 1, which `value-digits`
-- (Ids) shows to be enough. CP-SAT is third-party code: the solver is a parameter that answers
-- each call, and `IsSound` collects what its documentation promises (a solution meets the
-- constraints, OPTIMAL and INFEASIBLE mean what they say, and the value it reports is the
-- objective's where a double holds it, up to 2^53, since the code reads it through one; beyond
-- that the value is any number). It may answer UNKNOWN at any call, as it does when the time is
-- up. The readings of the clock are a parameter too.
--
-- The endpoints are functions from a store to a store and a reply or an error; one call is one
-- step. The theorems on the API hold for every way of making ids from the store's sequences in
-- which different runs have different ids (`IsNaming`); the code's own way, `RUN-001`, is one
-- (Ids). What the language model returns is an argument, as a value of JSON of any shape. Which
-- characters beyond ASCII are digits, letters or spaces is a parameter, and so is how Python
-- prints a value that is not a text.
--
-- Not modelled: the parsing of the snapshot and the ranges of its fields; the messages of
-- findings and errors; the hashes of a run (app/hashing.py); the Supabase backend of the store;
-- the prompts, app/ai/intake.py, app/ai/client.py and app/routers/ai.py; the ids, times and
-- payloads of audit events; the application shell.
pub mod Base
pub mod ReasonCodes
pub mod Snapshot
pub mod Errors
pub mod Eligibility
pub mod Baseline
pub mod Validator
pub mod Rules
pub mod Planning
pub mod Alternatives
pub mod Storage
pub mod Scenarios
pub mod Runs
pub mod Ai
pub mod Api
pub mod Samples
