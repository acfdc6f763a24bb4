-- ===== src/Lib.antt =====
-- The core of the StayKaro AI calling agent: the durable job queue and the call records behind its
-- telephony gateway, and the API by which tenants and administrators use it.
--
-- The parts, and where they are modelled:
--   services/api/src/models.py               Models: the rows of call_jobs, calls and
--                                            phone_number_routes, and their status columns.
--   services/api/src/routers/jobs.py         Jobs: Schema (constants, requests, errors, the wake-up
--                                            queue), Create (create_event and the constraints that an
--                                            INSERT meets), Transitions (list_eligible_events,
--                                            get_event, claim_event, complete_event, fail_event,
--                                            reap_stale_jobs). The other children hold the theorems;
--                                            Machine has the requests as one state machine, and Moves
--                                            what each may make of a row.
--   services/api/src/routers/internal.py     Calls: Token (verify_internal_token), Reasons
--                                            (_END_REASON_MAP), Handlers (create_call, get_call,
--                                            finalize_call, get_phone_route); Ends and Lifecycle hold
--                                            the theorems.
--   services/voice-gateway/internal_calls.py Wire (_with_internal_auth, the treatment of failed
--                                            requests) and Gateway.Clients (record, create, finalize,
--                                            resolve, with the API's handlers behind them).
--   services/voice-gateway/exotel_routes.py  Gateway.Payload (from the request to an ExotelCallback),
--                                            Gateway.CallStore (_DictCallStore), Gateway.Recorder
--                                            (_InMemoryEventRecorder), Gateway.Callback.
--   services/voice-gateway/src/main.py       Gateway.Sessions (_GatewaySessionManager) and
--                                            Gateway.CallStore (_RedisCallStore).
--   services/voice-gateway/conversation.py   Voice: Speech (STTProcessor), Answers (AIProcessor and
--                                            TTSProcessor); Hearing, Utterances and Dialogue hold the
--                                            theorems.
--   services/voice-gateway/voice_pipeline.py Voice.Line (voice_websocket, _run_call), with the counter of
--                                            calls of src/main.py; Voice.Hangups holds the theorems.
--   services/api/src/monitoring.py           Monitoring.
--   services/api/src/auth.py                 Accounts.Tokens: passwords and tokens, over interfaces to
--                                            bcrypt and jose.jwt.
--   services/api/src/main.py                 Accounts.Login: login, refresh_token, me. Accounts.Sessions
--                                            has the theorems, Accounts.Encoding an instance of the
--                                            interfaces for the tests.
--   services/api/src/tenant.py and services/api/alembic/versions/df467b3bdd3f_nk07_…
--                                            Accounts.Scope: what a request sees of a table.
--   services/api/src/models.py               Accounts.Models and Accounts.Columns: clients, users,
--                                            customers, call requests and audit rows.
--   services/api/src/routers/client.py       Portal: Access (the guards and get_my_profile), Calls,
--                                            Directory, Customers; the pages of all listings are in
--                                            Paging, and the order of their rows in Paging.Sorting.
--                                            Tenancy, Contacts, Patches, Upserts, Listings,
--                                            Refreshes and Statistics hold the theorems.
--   services/api/src/main.py                 Entry: Phone (CallerRequest), Calls (make_call), Health
--                                            (health, metrics_endpoint); Placed holds the theorems.
--   services/api/src/routers/admin.py        Admin: Access, Audit, Clients (with the tenants' handlers,
--                                            which are the same code), Tenants, Users, Members (the
--                                            users that are listed, changed and deleted), Logs. Emails,
--                                            Deletions, Trails, AuditRows, Audited, Unserved and
--                                            Isolation hold the theorems.
--   services/worker/src/jobs_client.py       Worker.Clients, with the API's handlers behind them.
--   services/worker/src/main.py              Worker.Loop (process_one, _run_loop). Acks, Deliveries,
--                                            Runs and Earned hold the theorems.
--   services/integration-service/src/main.py and services/worker/src/integration_client.py
--                                            Worker.Integration (process_event, process, the client).
--
-- How the code is read. A table is the list of its rows, and a text column is its primary key
-- (Prelude.Table). A handler is a function from the table to its answer and the table that it leaves;
-- an exception is a value of the answer. An UPDATE with its WHERE clause is one atomic step. Where a
-- handler of the job API issues several statements, its arguments `meanwhile` and `later` are what
-- other transactions commit between them; `alone` stands for nothing, and a
-- run (Jobs.Machine) is a sequence of requests that are each carried out alone. Times are microseconds since the
-- epoch, and a comparison with a difference of times is written with a sum. `datetime.now(UTC)` and the
-- database's `now()` are the two fields of a Clock. Identifiers that the code draws at random (uuid4)
-- are arguments. All recursion is on lists, so no fuel is used: the worker's loop runs for as many rounds
-- as it is given. The Redis client is an interface (Gateway.Redis); a Link says how the network treats
-- one request between services.
--
-- In Accounts, Portal and Admin a refused request is the status code and the detail of its answer, and
-- an exception that leaves a handler is a 500. Each request is carried out alone and keeps one database
-- connection, so the tenant of a request holds until its end. Times of tokens are seconds. ILIKE and
-- str() of a number are parameters, and so is ORDER BY created_at DESC: any order that is newest first, and
-- it may be another one in each query. A row that is inserted stands first in its table, and a listing
-- without ORDER BY comes in the table's order. Where `_write_audit_log` rolls back, the rows that the
-- session holds expire, and a handler that answers with one of them ends in a 500, its change committed.
-- A frame of an odd number of bytes makes np.frombuffer raise, which leaves the speech processor as it was.
--
-- Not modelled: logging, response serialisation, the values of JSON payloads beyond their data, the
-- order in which a database returns rows of one available_at (the model keeps the table's order),
-- interference inside one request of the call API or one callback, texts beyond ASCII in str.lower,
-- dialled numbers that are not one segment of a URL path, plan_usage_pct (a rounded float), and the
-- column metadata_json, which no handler touches. The Pipecat pipeline that carries the frames
-- between the processors, a WebSocket whose accept raises, the middleware of the API and the
-- dashboards are not part of this library.
pub mod Prelude
pub mod Json
pub mod Models
pub mod Jobs
pub mod Calls
pub mod Wire
pub mod Gateway
pub mod Worker
pub mod Monitoring
pub mod Paging
pub mod Accounts
pub mod Portal
pub mod Entry
pub mod Admin
pub mod Voice
