-- ===== src/Lib.antt =====
-- Orchestrix API: workflows, executions, alerts, alert rules and metrics of many tenants.
--
-- The program is a hexagonal Go service. Entities with their rules stand in internal/core/domain; the
-- services of internal/core/service read and write them through the interfaces of internal/core/port,
-- ask Temporal to run workflows, and leave an audit record of what they did; internal/workflow is the
-- interpreter that runs a workflow definition on Temporal, by the activities of internal/activity;
-- pkg/apperror turns errors into HTTP responses. The handlers of internal/adapter/driving/http call the
-- services for the user that internal/auth has put into the context of the request, and the
-- repositories of internal/adapter/driven/postgres keep the entities by the queries of internal/db. A
-- metric that is ingested is handed to the alert rule service by a goroutine; a rule that fires makes
-- the alert service raise an alert and may start a workflow. internal/alertrule/evaluator.go is an older
-- evaluation of the rules, straight on the queries and Temporal.
--
-- Where the parts are modelled:
--   Common            numbers, integers with Go's wrap-around, lists and maps
--   Fault             Go's error values: sentinels, AppErrors, wrapped and other errors
--   Domain            internal/core/domain, a module to a file; a method that changes its receiver
--                     returns the new record, and takes the reading of the clock
--   Port.Inputs       the inputs of internal/core/port/primary.go
--   Port.Call         the interfaces of internal/core/port/secondary.go and the calls of them
--   Port.Action       a service method: from the calls so far to its result and the calls after it
--   Port.After        one rule for each way to build a method, for proofs that follow its lines
--   Port.Trace        what the calls of a history show
--   Service           internal/core/service, a module to a file
--   Apperror          pkg/apperror/error.go and handler.go
--   Engine            internal/workflow/definition.go and dynamic.go
--   Activities        internal/activity/activities.go; Activities.Processing is
--                     internal/workflow/process.go
--   Auth              internal/auth/middleware.go and tenant.go, internal/tenant/middleware.go
--   Http              internal/adapter/driving/http: alert.go, alertrule.go, audit.go, execution.go,
--                     workflow.go and, in Metrics and Definitions, metric.go; what all the handlers
--                     share stands in Http.Handling
--   Db                the queries of internal/db that Postgres and Evaluator run, a module to a table
--   Postgres          internal/adapter/driven/postgres: alert.go, alertrule.go, execution.go and
--                     workflow.go, over the tables of Db
--   Evaluator         internal/alertrule/evaluator.go, over the tables of Db and Temporal
--   Executor          internal/adapter/driven/temporal/executor.go
--   Validation        pkg/validation/validator.go
--   Tests             the theorems at concrete inputs
--
-- An adapter (a repository, Temporal, the setter of the tenant) is a function from the history of all
-- calls, the newest first, and its arguments to a result, so it may answer in any way, and differently
-- each time; a write in a history says whether it was taken. The clock and the UUIDs are functions of
-- the history too, with a number for several readings between two calls. That a fresh
-- UUID is not in use is assumed only where a theorem says so. Of the Temporal
-- SDK, json.Unmarshal and time.ParseDuration the interpreter sees only the answers. The order in which
-- Go goes through a map is a parameter.
--
-- A table of Db is the list of its rows, and a query does with it what its SQL says: WHERE selects, LIMIT
-- and OFFSET take an int32 each, a column that an INSERT leaves out takes its default. What the database
-- adds is given with each statement: whether it fails, which then leaves the table as it is, the ID that
-- it makes up and its clock. The order that ORDER BY gives in each query is a parameter, and row-level security is not
-- in force. Service.Alert.Stored puts the repository of alerts into the ports of the services, over the table that
-- the calls of a history leave; the other repositories are not plugged in, and a theorem about one says
-- what it does on its table.
--
-- Go's HTTP client, the check of a token, text/template, regular expressions on a text, UUIDs and JSON are
-- parameters of the parts that use them. Where a part takes a text apart itself, as the bearer header and
-- the variables of a template, the text is the list of its code points.
--
-- Numbers and bounds: lengths and times are natural numbers, times counting nanoseconds; the page
-- offset and the number of attempts keep the wrap-around of int64 and int32. A float64 is NaN or its
-- position among all float64 numbers, which is all that the comparisons see. Every loop is recursion on
-- the list that it goes through, so there is no fuel; the decimal text of a number is bounded by the
-- number itself.
--
-- A UUID is a number, and a json.RawMessage is what json.Unmarshal makes of it: nothing, a value of the
-- expected type, JSON of another shape, or no JSON. JSON values are texts,
-- objects, or opaque.
--
-- Not modelled: timeouts and retries of activities, and the duration of a delay; the HTTP handlers that query metrics by a range of time, the repositories of audit
-- logs and metrics and their queries, and the older handlers, of which the ones in Http are the
-- successors; UserInfo and MarshalJSON of a user; routing, logging, tracing, the generated API,
-- configuration and process start. The order of two goroutines is not modelled: a history records that
-- a task was started, and the task itself is a function of its own.
pub mod Common
pub mod Fault
pub mod Domain
pub mod Port
pub mod Service
pub mod Apperror
pub mod Engine
pub mod Activities
pub mod Auth
pub mod Db
pub mod Evaluator
pub mod Executor
pub mod Http
pub mod Postgres
pub mod Validation
pub mod Tests
