-- ===== src/Lib.antt =====
-- Hypershell Reach runs commands and managed scripts on remote hosts over SSH for an operator and
-- for agents. It keeps a record of every execution (a run), of the work they belong to (tasks) and
-- of proposals for new tools (candidates). This library models the parts of the Python package
-- src/hypershell_reach that carry its rules, and proves what they promise.
--
-- The modules:
--   Base         Python's exceptions, texts and numbers; methods that change an object and may
--                raise; database tables with a primary key.
--   Runs         src/hypershell_reach/runs.py. Runs/Record has RunRecord and its validators,
--                Runs/Summary the bounded result summaries, Runs/Store the rows of RunStore, its
--                writes and the changes of a record, Runs/Operations its methods (create, get,
--                finish, fail_local, interrupt, mark_unknown, set_retained, reconcile_incomplete,
--                cleanup), Runs/Query list and count. The other modules hold the proofs.
--   Candidates   src/hypershell_reach/candidates.py. Candidates/Record has the models and their
--                validators, Candidates/Store the store with create and get, Candidates/Changes
--                the methods that revise a record (update, record_occurrence, transition,
--                link_task).
--   Tasks        src/hypershell_reach/tasks.py. Tasks/Record has TaskRecord, TaskExecutionLease and
--                their validators, Tasks/Store the rows of TaskStore with get and require_open,
--                Tasks/Creation create, Tasks/Leases the methods on execution leases, Tasks/Edits
--                what edits make of a record, Tasks/Equality _desired_close_matches, Tasks/Closing
--                close, archive, repair and cleanup, Tasks/Updating mark_mutation_pending and
--                update. Tasks/Effect says what a call may do to the store, and the modules named
--                Effects what each call does; Tasks/Calls has the calls and what each may do to a task,
--                Tasks/Steps puts them in any order, and Tasks/Life has the specified life of a
--                task, for Tasks/Lifecycle.
--   Config       src/hypershell_reach/config.py. Config/Model has the limits and targets with their
--                validators and the resolution of limits.
--   Execution    src/hypershell_reach/execution.py. Execution/Lease has the leases for heavy
--                executions, Execution/Ssh the argument vector, redaction and statuses,
--                Execution/Stream the bounded reading (_read_bounded) and the result of run_ssh.
--   Executor     src/hypershell_reach/executor.py. Executor/Service has the turns of the event
--                loop: submit, the phases of _execute, the callback _reconcile_completed_task, the
--                two halves of _cancel, the two halves of stop. Executor/Steps puts them in any order, with other
--                processes that write the store and lock files in between. The service uses the
--                store of Runs, the leases of Execution and the limits of Config.
--                Executor/Await has await_terminal, one turn at a time, while the service is
--                started.
--   Tools        src/hypershell_reach/managed_tools.py. Tools/Model has ArgumentSpec and
--                ScriptMetadata, Tools/Arguments validate_script_arguments, build_script_command
--                and ensure_target_compatible; Tools/Quoting has a reader of the words of a shell
--                command, against which the quoting is proved.
--   Server       src/hypershell_reach/server.py, for the tools that execute. Server/Inputs has their
--                input models, Server/Model the state of the server, _target_runtime,
--                _prepare_task_execution and the two halves of _tracked_ssh_run, Server/Routes the
--                branches of call_tool, Server/Waiting the loop of _await_terminal_execution. It joins the store of Tasks, the service of Executor with
--                its runs and leases, the limits of Config and the commands of Tools. Server/Events
--                puts what the server does in any order, with any turns of the service and of other
--                processes in between. Server/Parts and Server/Planned say what the branches share.
--   Examples     the theorems at concrete inputs.
--
-- How the code is modelled. A method is a function from the state of its object to a result (a
-- value or the exception it raises) and the state afterwards, which is kept after a raise too; a
-- database transaction takes back what was written before a raise. Readings of the clock and
-- drawn IDs are arguments. A timestamp is an instant in microseconds, the precision that the code
-- writes. Texts are native strings, and error messages are the code's own. The stores are those
-- over the unified database; a row has the columns that queries read beside the serialised record,
-- and JSON is taken to give back what was written.
--
-- The event loop of the executor. One function is one turn: the code between two awaits. A task
-- waits for the semaphore, is executed, or has ended and waits for its callback; what `run_ssh`
-- does, and when, is an argument of the turn. The rows of the database outlive the service's use of
-- them: when `stop` has dropped `_store`, methods that need it raise, and the callback only gives up
-- the lease and the task. Turns after that are modelled; `start`, which builds the store again, is
-- not, and neither is it in the sequences of turns.
--
-- Bounds and fuel. `create` draws at most 32 IDs, as the code does: the loop is recursion on the
-- attempts that are left. The loop of `_await_terminal_execution` is recursion on turns; 20 for
-- each second and one more are proved enough, since a turn sleeps 50 milliseconds or to the
-- deadline. Decimal printing is recursion on a bound of the number of digits. The
-- loop over the slots of a lease is recursion on the slots that are left. All other loops are
-- recursion on lists and texts.
--
-- Parameters. `str.isprintable` rests on the Unicode tables: Runs.Record.Unicode is the test with
-- the one fact that is relied on, that the characters of ASCII from the space to the tilde are
-- printable. UTF-8 decoding with replacement is an argument of the bounded reading.
-- Python's floats and regular expressions are Tools.Model.Python.
--
-- Not modelled: skills and the discovery of scripts; the queries of candidates and tasks; the web
-- interface and its pages, the tools of the MCP surface that only hand a call to a store, and service
-- start-up; the socket of the executor and the
-- processes of ssh; the migrations from older layouts, and the file modes of the stores that the
-- unified database replaces.
pub mod Base
pub mod Runs
pub mod Candidates
pub mod Execution
pub mod Tasks
pub mod Executor
pub mod Config
pub mod Tools
pub mod Examples
pub mod Server
