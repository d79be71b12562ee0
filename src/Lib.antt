-- ===== src/Lib.antt =====
-- LayerScope: a server that scans container image archives for vulnerabilities with Trivy, keeps
-- the results in SQLite, and serves them to signed-in users.
--
-- The parts and their files. Paths are from the repository's root.
--   Scanner, Scanner/*: backend/app/scanner.py. `ScanManager` is one record: the tables it works on
--     (scans, findings, packages, images), its queue, its sets of queued and active ids, its
--     processes, its live-event clients and the database lock. A method is a function of that
--     record. `run_scan` is a coroutine: `Scanner.Task` has the monad of its body, with early
--     returns, exceptions and cancellation, and `Scanner.Outside` the answers of the file system and
--     of Trivy, and what the other tasks do at each suspension. Its pieces are in Claim, Output,
--     Results, Finish and Run, in the order of the code; `settle` is its except and finally clauses.
--     The wait for the process in the cancellation handler is a suspension like the others, at which a
--     second cancellation may come; the waits of the timeout path and for the output readers are taken
--     together with the wait for the process, and a process is taken to obey a signal.
--     Events, Jobs, Normalize, Command and Worker hold the other methods.
--   Locks, Locks/*: backend/app/locks.py, the lock that scans take to read the vulnerability database
--     and maintenance to write it. Tasks are a list of states, and a step moves any one of them.
--   Auth, Auth/*: backend/app/auth.py. Accounts (names and passwords), Sessions, Totp, Login (set-up,
--     login, logout), Enroll (activation and re-enrollment), Verify (the second factor), Gate (the
--     middleware and the role checks), Admins (the count of active administrators).
--   Users, Users/*: backend/app/users.py. Tokens: backend/app/api_tokens.py. Recovery:
--     backend/app/admin_recovery.py. Lifecycle: all handlers of these four files as the steps of one
--     system over the database of the accounts.
--   Qos, Qos/Limiter: backend/app/qos.py, the storage headroom and the limit on sign-in attempts.
--   Requests, Requests/Submit, Requests/Removal: the submission, the cancelling, the retry and the
--     removal of scans in backend/app/main.py.
--   Components, Components/*: backend/app/components.py, the manager of the maintenance jobs. Its record
--     holds the manager of the scans, whose live events and database lock it uses. Outside has the
--     metadata of the databases and what a job meets outside; Download has check, download and
--     consume as coroutines; Worker has run, worker, start and stop. Laws and Post carry a property of
--     the single steps through the coroutines, for Settles, Cancelled and Released; Single and Recovered
--     are about the table and the queue.
--   Groups, Groups/*: backend/app/groups.py. The handlers; Spec, the sets of images that they
--     implement; Payload, the summaries and the overview.
--   Uploads, Uploads/*: backend/app/uploads.py. The state of the multipart writer and the files of the
--     directory; Parts, the callbacks of the parser; Stream, the flushing, the clean-up and the loop
--     over the chunks of a body.
--   Groups/Payload/Latest and Reports/Export/Shown say by the tables alone which scan of an image is
--     its latest completed one and which images a group shows.
--   Reports, Reports/*: the check of a report's logo and the selection of a group export in
--     backend/app/reports.py.
--   Cli: the exit codes and the severity gate of cli/src/layerscope_cli/cli.py.
--   Models: the rows of backend/app/models.py. Config: backend/app/config.py. Security: the
--     sanitizing of text in backend/app/security.py.
--   Base: tests, lists, tables, text, JSON values and integers that the parts share.
--   Tests: concrete data and runs.
--
-- How the code is read. A handler is a function from the database to the database and an answer; an
-- HTTPException before a commit leaves the database as it was, which is how its session ends. A
-- database table is a list of rows, found by primary key; the key of a new row comes with the
-- request. Instants are microseconds, a handler runs at one instant, and text is a list of code
-- points. A method of ScanManager between two suspensions is one step, as on one event loop.
--
-- Parameters. `casefold` and `upper` are Python's, `safe_url` is safe_advisory_url (which rests on
-- urllib), `isoformat` writes an instant; `Crypto` has hashlib, argon2, hmac, Fernet and pyotp; `Draw`
-- has the random values. `hmac.compare_digest` compares ASCII text; on other text it raises, which
-- is not modelled.
--
-- For the uploads, `Uploads.Outside` has python_multipart, the errors of the system calls and the random
-- names; the callbacks that the parser makes for a chunk are the chunk's. For the maintenance jobs,
-- `Components.Outside` has the registries, the process and datetime.fromisoformat. Pillow's answers on
-- a logo are arguments of its check.
--
-- Bounds. The decimal writer and the batch loop run on fuel that their length bounds, and the search
-- for a free file name on one round more than there are names, and the walk over the chunks of a PNG
-- file on the number of its bytes; every other loop is by structural
-- recursion.
--
-- Not modelled: the other routes of main.py, backups, the rest of the reports, the calls of the
-- command line client, cookies, the key file, the opening of the database, the browser interface; of the groups, the lists
-- of members in a summary; of the uploads, the reports of progress and the cancellation of the
-- request's task; of the maintenance jobs, the temporary directory and environment of the process.
pub mod Base
pub mod Models
pub mod Locks
pub mod Security
pub mod Config
pub mod Scanner
pub mod Auth
pub mod Users
pub mod Tokens
pub mod Recovery
pub mod Lifecycle
pub mod Components
pub mod Groups
pub mod Uploads
pub mod Reports
pub mod Tests
pub mod Qos
pub mod Requests
pub mod Cli
