-- ===== src/Lib.antt =====
-- conductr: a model of the orchestration of coding agents, and what it guarantees.
--
-- The program looks after the open issues of a repository. It finds out what each issue waits for,
-- puts each issue into a bucket, merges pull requests that do not fail, and hands issues that are
-- ready to agents, either by a comment on GitHub or by a session of tmux. How careful it is about
-- work that runs side by side is set by a safety preset.
--
-- Text is the list of its code points; u64, usize, durations and points in time are natural
-- numbers, and a number that is read from text is refused from 2^64 on. A BTreeMap is an association
-- list in ascending order, a BTreeSet an ascending list.
--
-- Parts, and the files that model them:
--   Prelude         the shared helpers: lists, text, maps, sorting, decimal numbers, results.
--   Core            crates/conductr-core/src: Types, Sessions and DepGraph (types.rs), Signals
--                   (signals.rs), Safety (safety.rs), Maturity (maturity.rs).
--   Orchestrate     crates/conductr-orchestrate/src, a module for each file:
--     Graph         graph.rs. `Kahn` holds the variables of the while loop of topo_batches, `round` is
--                   its body and `run` the loop, on fuel. The number of issues plus one is given; each
--                   round but the last takes an issue, so the loop ends before the fuel does.
--     Deps          deps.rs. The regular expressions are the crate regex's: what they capture is a
--                   parameter, the record `Regexes`.
--     Classifier    classifier.rs.
--     Dispatch      dispatch.rs: runners, slots and the sessions to release.
--     Isolation     isolation.rs: the decision for one ready issue. The clock is an argument.
--     CiGate        ci_gate.rs and its types: may a branch be merged.
--     Cycle         orchestrator.rs, run_cycle: Survey is its first part, up to the triggered issues;
--                   Merge merges and spawns QA sessions; Launch dispatches one issue; Pass is the
--                   loop over the issues and the whole.
--                   Start, Locks, Caps, Quiet and Chords are about one pass; Completion is
--                   run_to_completion, on fuel: max_cycles and one more is given, since each
--                   turn of the loop counts one cycle.
--     Tempo         tempo.rs, and the end of run_cycle, which calls it: run_cycle_and_write is the
--                   whole pass. Text that is printed by chrono or from a floating point number is a
--                   parameter.
--     Architect     architect.rs: the complexity and the phrase of an issue.
--   Pod             crates/conductr-pod/src: Free (free.rs), Heal (heal.rs), Diagnose (diagnose.rs and
--                   session.rs).
--   Mail            crates/conductr-mail/src: dedup.rs and synthesise.rs.
--   Schedule        crates/conductr-schedule/src: Notation (notation.rs), Pattern (pattern.rs), in the
--                   arithmetic of u32, FromPlan, PlanPattern and Dsl (from_plan.rs),
--                   Duration and Parser (parser.rs). The loop over the
--                   batches of a plan is on fuel, one more than there are items, since each batch
--                   takes at least one; that of the padding on the length that is left, and
--                   that over nested beats on the length of their text, since a child's is shorter.
--   Calendar        crates/conductr-calendar/src: parse.rs, and in Slots the slots of reconcile.rs.
--                   The loop over a window has as much fuel as the window has half hours, with
--                   which it ends (slots_from-slot_count).
--   Cli             crates/conductr/src: Glob and Idle (idle.rs), Cron and Crontab (cadence.rs).
--
-- The ports (GitHub, tmux, the mailbox, local CI, the clock, the semaphore) are the record `World`:
-- what a call that changes something answers is a function of such calls before it, what a run of local
-- CI answers one of the runs before it, and the lists are read once in a pass, so each theorem about a
-- pass holds for every sequence of successes and failures. A pass returns its trace, the calls that change
-- something with their outcome, beside the report.
--
-- Not modelled: logging; the fields of records that no modelled code reads, such as the commands of
-- a local CI run; the display strings; the adapters, which call processes and the network;
-- the dashboard, setup and most of the command line; durations, which are computed in floating point;
-- the timeline that render.rs prints; what the architect and the idle scan find in a repository's files; the
-- loop of reconcile over the human issues, and the configuration files; the launch agents that cadence installs.
pub mod Prelude
pub mod Core
pub mod Orchestrate
pub mod Pod
pub mod Mail
pub mod Schedule
pub mod Calendar
pub mod Cli
