-- ===== src/Lib.antt =====
-- CoreTempo runs several coding agents in terminals and carries messages between them. An agent asks or
-- sends along the edges of a workflow; the router writes each message to a table, hands its text to the
-- addressee's injection queue, follows it to its end, and keeps in memory what every agent waits for and
-- owes. This library models the router with the store and the bus that it stands on, and the queue worker,
-- the byte ring and the escape stripper of a terminal. A workflow file is validated and frozen before a
-- run; a flow's trigger is claimed in a hub, holds the locks of its agents, posts a kickoff through the
-- router, and watches it to its end, in serve mode from a queue per flow; all of this is reached over HTTP,
-- behind one guard.
--
-- Types: core/src/types. Ids, Message, Config, Event are the files of those names; Message/RoundTrip is
-- about the text columns. Json is a value of serde_json, with an object's entries in order. Names are
-- strings.
-- Bus: core/src/bus.rs. The broadcast channel is the list of all that was sent; Bus/Replay compares the
-- bounded ring with it.
-- Ring: core/src/pty/ring.rs. `ReplayRing`, with bytes as numbers; Ring/Window compares it with the
-- history.
-- Store: core/src/store. The tables are lists of rows in insertion order, and each command of the writer
-- thread is one function; a row read is parsed from its text again and may be corrupt. Store/Reads and
-- Store/Rows are about lookups and updates, Store/Orphans about `reconcile_orphans`. SQLite itself, with
-- its migrations, is taken to do what a statement says.
-- Router: core/src/router. Router/State has the record of every map that `struct Router` locks,
-- `transition`, `settle` and `fail_message`; Router/Create, Reply, Loops, Gate, Watchdog and Drive are
-- `create`, `reply` with `reject_off_schema`, the loop edges, `on_stable_idle`, the sweeper with
-- `on_agent_restarted`, and `drive_message`; Router/Sinks is router/sinks.rs. Calls to the injection queue
-- are recorded in order. `drive_message` is a state machine fed with the signals it awaits. Router/Steps
-- puts all the calls in one step function, with the clock and the terminal side's reports chosen by the
-- environment, so that a history is a list of steps. Router/Transitions gives the two outcomes of a status
-- change, Router/Accounts the agreement of memory and table, Router/History what a table keeps,
-- Router/Reply/Once, Delivery and Budget what replies do, Router/Gate/Safety, Rounds and Reminders what an
-- idle agent is told, Router/Watchdog/Deadlines and Restarts what the sweeper and a restart fail.
-- Terminal: core/src/pty. Stripper is `AnsiStripper` of pty/detector.rs, which Stripper/Grammar and
-- Sequences compare with a grammar of escape sequences, Coalesce the `coalesce` of
-- pty/ring.rs, Queue the `QueueWorker` of pty/queue.rs, each await of its task a phase and each ready
-- branch of a `select!` a step. Queue/Order, Answers and Whole follow the line of injections, Queue/Dialogs
-- and Silence what is typed while a dialog stands. A step may also take a turn of `wait_debounced_idle` for
-- which no timer ran, which only looks at the state again.
-- Workflow: core/src/workflow.rs. Issues names the issues, whose texts are constructors; Agents, Loops and
-- Flows are the checks of each table, Validate is `validate_workflow` with the freezing of `load_workflow`,
-- Server is `resolve_server`. Loops/Walk, Search and Cycles follow the search for loop cycles, Flows/Closed
-- and Validate/Accepted what an accepted file is. The TOML parser, the file system and the random token are
-- parameters.
-- Schema: core/src/schema.rs. Repair is `repair_text` with `balanced_span`, Refs `find_external_ref`, Check
-- `compile`, `check` and `unwrap_output`, Check/Verdicts what a check gives. The JSON parser and the compiled validator are parameters.
-- Trigger: core/src/trigger.rs. Hub is `TriggerHub` with `SettleOnDrop`, Payload `read_payload`, Outcome
-- what a record says of its kickoff, Watch `watch_completion`; what a watch awaits comes as lists, of which
-- a schedule chooses the lengths. Hub/Claims and History follow any calls of a hub; Watch/Quiet, Arrivals,
-- Ends and Reports what a report of a watch implies.
-- Serve: daemon/src/serve.rs. The scheduler of serve mode: `admit`, the worker of each flow as a state
-- machine over its awaits, the runs and their ends, the interrupt; Serve/Accounts and Drained follow any
-- calls. The run that a trigger starts is the environment's, which ends it as it likes.
-- Api: core/src/api. Sse is the filter and the pump of sse.rs, Sse/Seam joins replay and live events; Auth
-- is the guard of auth.rs with the classifiers of mod.rs and core/src/sessions/manager.rs, Auth/Scope what
-- a token reaches. How an address is read is a parameter.
-- Locks: core/src/locks.rs. A flow's acquisition and release are steps, taken in any interleaving; Order,
-- Progress, Holders and Served are what follows of them.
-- Base64: `b64_encode` of core/src/api/sse.rs and `decode` of cli/src/session/b64.rs, on lists of numbers.
-- Time: core/src/time.rs; Time/Calendar is the Gregorian rule and the bounds, Time/DayNumber compares the
-- two.
-- Common: equality tests, lists, texts and maps over native numbers. Examples: small runs.
--
-- Each call is one step: an interleaving inside a call, at its await points, is not modelled, except that
-- `drive_message` and the calls it competes with interleave at its own await points. So `create`, which in
-- the code inserts the row and publishes it before it enters it in the counts, the owed sets and the
-- deadlines, does all of this at once, and a reply between the two is not among the histories; nor are
-- writes of other runs that share the database, whose rows are there but stay. A JSON schema is a
-- parameter of a contract, the function that says what it finds wrong with a body. An identifier is a
-- parameter of `create`, and a collision is refused by the table. All recursion is on lists and values, but
-- for the walk of loop edges, whose fuel is one more than the number of agents: a path without a repetition
-- is no longer than that. Times are milliseconds as natural numbers, and sequence numbers and counters do
-- not wrap, which at 64 bits they do not in practice. Not modelled: the terminals' processes and the
-- reading of their output, the handlers of the HTTP interface, the files that are written for Claude
-- (mcp.rs, claude_config.rs, trust.rs), the hash of a workflow and its skills, which are file I/O;
-- sessions; and the programs around the core, which start and connect these parts.
pub mod Common
pub mod Types
pub mod Workflow
pub mod Bus
pub mod Ring
pub mod Store
pub mod Schema
pub mod Trigger
pub mod Api
pub mod Locks
pub mod Router
pub mod Examples
pub mod Terminal
pub mod Base64
pub mod Time
pub mod Serve
