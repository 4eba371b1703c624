-- ===== src/Lib.antt =====
-- Codex Storage Doctor: the planning, the application and the rollback of a mitigation trigger.
--
-- The program, under src/codex_storage_doctor, inspects the SQLite log databases of Codex, and on
-- request installs one trigger in such a database that drops log rows on insert. `create_plan` looks
-- at the database and writes a plan with a digest and a confirmation token. `apply_plan` checks the
-- plan, the target and the running processes, makes a verified backup, writes a sealed rollback
-- manifest, and installs the trigger in an exclusive transaction. `rollback` takes the manifest and
-- removes the trigger in the same manner.
--
-- Parts and files:
--   Prelude, Text, Text/Cut, Json: shared names, the str methods that the source calls, and JSON
--     values with the dict operations.
--   Decimal, Int: numbers in decimal, f"{n:03d}", int(text), and the arithmetic of ints.
--   Host: functions of Python's standard library, as a parameter: SHA-256, json, paths and the word
--     characters of re.
--   Errors: the exceptions, `except` clauses as tests on them, and the report of a recovery error;
--     controlled_error_code of privacy.py.
--   Models: models.py. The findings and candidates, Scan (ProcessScan), Inspection and Sample, each with
--     its to_dict; Ids and Scan/Gate are proofs, the latter on the process gate of mitigation.py.
--   Processes: processes.py. The helpers, Lsof (_parse_lsof_holders as a state machine on lines), Linux
--     with Linux/Fds (_scan_linux), Macos, Windows and Scan (scan_codex_processes). Proofs are in Quiet,
--     Lsof/Quiet, Lsof/Fill, Lsof/Laws, Scan/Verdict, and, under Linux/Fds, in Quiet, Tallies, Holders,
--     Asked and Verdict.
--   SqliteInspect (its children Reads, Triggers and Results hold the parts): sqlite_inspect.py;
--     SqliteInspect/Quiet, SqliteInspect/Verdict and SqliteInspect/Counted are proofs.
--   Sampling: sampling.py, with the proofs in Sampling/Laws and Sampling/Delta.
--   Privacy: assert_privacy_safe and contains_absolute_path of privacy.py; Privacy/Laws is a proof.
--   Effects: every call of the operating system, of SQLite and of the process scanner is a request.
--     The surroundings are an arbitrary function from the trace so far and the request to a reply or
--     an exception, so they may change between two requests. The world holds the trace and the local
--     variables that the handlers of apply_plan and rollback read. Effects/Rules,
--     Effects/Mutations, Effects/Reading and Effects/Yields are the rules for proofs: code that
--     makes no mutating request, the rules for a sequence, a handler and an if, code that makes
--     reading requests only, and properties of a returned value.
--   Filesystem: filesystem.py.
--   Planning: planning.py and schema.py. Modes (triggers, normalize_sql), Schema (sqlite_master),
--     Surroundings (file identity, versions, WSL), Document (validate_plan_document), Create
--     (create_plan); Quiet, Reads, Harmless, Accept and Schema/Base are proofs.
--   Reports: reports.py.
--   Mitigation: mitigation.py. Gate (ensure_process_gate), Backup, Manifest, Commit (the check after
--     a COMMIT that raised), Apply with Apply/Transaction (apply_plan), Rollback with
--     Rollback/Transaction (rollback). Proofs are in Quiet, Gate/Verdict, Manifest/Seal,
--     Manifest/Accept, Commit/State, Commit/Verdict, Apply/Quiet, Apply/Recovery, Apply/Inside,
--     Apply/Contract, the four files of the same names under Rollback, and, for what must
--     precede a CREATE or DROP TRIGGER, Order, Apply/Copied, Apply/Order and Rollback/Order.
--   Tests: a concrete machine, on which a plan is made, applied and rolled back, and the theorems on it.
--
-- The two transaction functions are cut into named steps in the order of the source; a `try` with
-- its `except` clauses is `catch`, and a `finally` clause is code that takes the outcome as a value.
-- An early `return` from inside `try` is the answer of the branch. Nothing runs on fuel: every loop
-- of the modelled code is structural recursion on a list, a text or a document.
--
-- The numbers in decimal are printed digit by digit on fuel n + 1 for the number n, which is enough:
-- each step drops a digit.
--
-- Not modelled: floats (in JSON, in estimates of bytes and in the seconds of a sample), non-ASCII case
-- folding of str.lower, non-ASCII digits in str.isdigit, and the modules paths.py, config.py
-- and cli.py and scripts/, which are planned or hold argument parsing and packaging. The rows that
-- SQLite answers to a query are arbitrary; the queries themselves are not interpreted.
-- The process gate takes any reply of a scanner, of which the scans of processes.py are an instance.
mod Prelude
mod Tests
pub mod Text
pub mod Decimal
pub mod Json
pub mod Int
pub mod Models
pub mod Sampling
pub mod SqliteInspect
pub mod Privacy
pub mod Processes
pub mod Errors
pub mod Host
pub mod Effects
pub mod Filesystem
pub mod Planning
pub mod Reports
pub mod Mitigation
