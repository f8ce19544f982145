-- ===== src/Lib.antt =====
-- yafe runs flows of shell steps as jobs. This library models the parts that keep its state, the
-- engine that runs a flow, and the interface that is in front of them.
--
-- The parts, and where they are modelled:
-- * internal/registry/registry.go, the flows of a directory: Registry; names: Names.
-- * internal/queue/queue.go, jobs as files in a directory for each status: Job, Queue, Queue/Find
--   (listing, lookup and deletion), Queue/Cleanup. Queue/Workers has the steps of workers that try to
--   claim one job at a time.
-- * internal/queue/worker.go, which takes jobs from the queue and runs their flows: Worker.
-- * internal/scheduler/schedule.go and store.go, schedules as files: Schedule, Schedule/Store.
-- * internal/scheduler/scheduler.go, which keeps a cron entry for each enabled schedule and lets it
--   enqueue jobs: Scheduler, Scheduler/Cycle (the start, and what an entry does when it is due).
-- * internal/auth, roles, users and the middleware: Auth, Auth/Middleware.
-- * internal/server/server.go, routes and handlers over the services: Server, Server/Routes,
--   Server/Jobs, Server/Flows, Server/Schedules; Server/Serve answers a request, Server/Headers has the
--   headers and the files of the web interface. Http has the data of a request and of its answer.
-- * internal/client/client.go, which asks the server: Client, Client/Call; Client/Served has it with the
--   server of this program on the other side.
-- * cmd/yafe/main.go, the commands: Cli, Cli/Jobs, Cli/Flows, Cli/Schedules, Cli/Serve (`serve`),
--   Cli/Local (`run` and `auth hash`). A command takes parsed flags and ends with what it printed and
--   an error.
-- * internal/engine, from a decoded flow to its run: Engine (the data), Engine/Parse and
--   Engine/Validate (parser.go), Engine/Template and Engine/Resolve (template.go), Engine/Secret,
--   Engine/State, Engine/Shell (step_shell.go), Engine/Run (core.go, run_host.go), Engine/Tool and
--   Engine/Tool/Extract (tool.go). Engine/Host lists what they call of the operating system.
-- * internal/output/output.go, tables for the terminal: Output.
-- The other modules hold what these share (Prelude, Text, Result, Exec, Disk), what is proved of them,
-- and witnesses (Examples).
--
-- A method is a procedure from a state to a result and a state (Exec). The state of the files is a
-- list of paths with contents and a list of outcomes, one for each call to come: a call works, fails,
-- or, if it writes, leaves other contents behind. The list is an input, so that a statement for every
-- disk is one for every failure; where it is at its end, calls work. Contents are of any type, with a
-- codec that decodes what it encoded, for encoding/json. The directories are there: the program makes
-- them when it starts. Texts are lists of code points. Instants and random ids are arguments. Logging
-- is left out, and so is what only logs an error.
--
-- Parameters, for code that is not part of the program: JSON, bcrypt, the scanner of lines, the cron
-- runner (with laws on what its entries call for), the texts of errors. The engine is a parameter of
-- the worker, and a service is one of the handlers. The client is given what net/http, net/url and
-- encoding/json do, and the commands are given the terminal and the system, with the flags parsed. The
-- engine runs on a machine of any type, on which a call gives a value or an error of the system and may
-- change the machine in any way; YAML, HTTP, archives, SHA-256 and upper case are parameters of it
-- too. A map of secrets is the list of its entries in the order in which a loop visits them, and the
-- regular expressions of references are matchers by recursion.
--
-- Fuel: the digits of a number n are written with the fuel n + 1, more than there are digits.
-- drain_queue runs at most as many jobs as its fuel says; where every call works, more fuel than there
-- are pending files is enough.
--
-- A download is tried as often as the declaration says. The other loops go down a list.
--
-- Not modelled: the declarations of the flags and `main`; the embedding of the web interface; the log
-- writer and the standard streams of a step; what the commands of a flow do to the files of the queue,
-- apart from the log of the job; timers, sockets and panics. In Queue the lock of a file is
-- an input: `held` says which files another worker has locked. In Queue/Workers other processes change
-- or remove files, but put no other file where the pending one is or was, since a lock is on a file and
-- not on its path.
pub mod Prelude
pub mod Text
pub mod Result
pub mod Exec
pub mod Disk
pub mod Names
pub mod Registry
pub mod Engine
pub mod Job
pub mod Queue
pub mod Worker
pub mod Schedule
pub mod Scheduler
pub mod Auth
pub mod Http
pub mod Server
pub mod Client
pub mod Cli
pub mod Output
pub mod Examples
