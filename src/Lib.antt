-- ===== src/Lib.antt =====
-- A verification library for subport: a gateway that relays chat requests to a pool of upstream
-- accounts, bills them to quotas and sells quota.
--
-- The parts and how they meet. A request names a model. The alias table (Gateway/Alias) turns the name
-- into a chain of models; for each the relay (Gateway/Relay) asks the scheduler (Gateway/Scheduler) for
-- account after account, calls the upstream, and notes the outcome (Gateway/Health), which may cool or
-- pause the account that the next pick would have returned. Which accounts may serve a model is the
-- routing table's (Gateway/Routing). Errors are read by their text (Gateway/Errors). Around the relay
-- a handler (Http/Serve) resolves the caller's key and, in the store (Store), holds an amount of the
-- owner's quota, prices the call (Pricing), and settles: one usage row, one charge and the release of
-- the hold. A stream comes from an adapter (Gateway/Openai) and may be rewritten for the protocol of
-- the client (Gateway/Events). Payments (Store/Recharge) raise the quota.
--
-- Files and the code they model:
--   Prelude           shared names, lists, integers, int64 arithmetic, ASCII text, stable sorting
--   Pricing           internal/model/pricing.go
--   Store/Rows        internal/model/model.go, recharge.go; tables of internal/store/sqlite_schema.go
--   Store/Table       rows under a primary key: SELECT, UPDATE, DELETE
--   Store/Sql         internal/store/dialect.go: statements, transactions, faults of the driver
--   Store/Quota       internal/store/sqlite_quota.go and the quota methods of internal/store/store.go
--   Store/Recharge    internal/store/recharge.go, sqlite_recharge.go
--   Store/Billing     internal/store/sqlite_pricing.go and the pricing methods of internal/store/store.go
--   Store/Keys        internal/store/sqlite_keys.go and the key methods of internal/store/store.go
--   Store/Compensation  CompensateBrokenStreams of internal/store/store.go, with sqlite_keys.go
--   Store/Users       users and sessions: internal/store/sqlite_auth.go, store.go, store_ext.go
--   Store/Kept, Store/Preserved  what runs of statements keep of a row or of the database
--   Gateway/Account   Account of internal/model/model.go
--   Gateway/Errors    internal/gateway/upstream_errors.go, ClassifyUpstreamError of health.go
--   Gateway/Health    internal/gateway/health.go
--   Gateway/Routing   internal/gateway/routing.go
--   Gateway/Scheduler the account list and Pick of internal/gateway/gateway.go
--   Gateway/Alias     internal/gateway/model_alias.go
--   Gateway/Relay     Relay of internal/gateway/gateway.go, RelayStream of internal/gateway/stream.go
--   Gateway/Events    internal/gateway/sse_protocol.go
--   Gateway/Openai    the openai adapter of internal/gateway/provider.go and stream.go
--   Gateway/Credentials  the credential cache of internal/gateway/account_creds.go and the token
--                     refresh of token_refresh.go, with the order of a map as a list's
--   Payment           internal/payment/alipay.go
--   Http/Admission    internal/httpapi/quota.go
--   Http/Messages     the decoding in internal/httpapi/protocols.go
--   Http/Serve        handleChat of internal/httpapi/server.go, the handlers of protocols.go
--   Http/Users        internal/httpapi/auth.go, and PATCH of a user in recharge.go
--   Http/Payments     the notification and the recharge order of internal/httpapi/recharge.go
--   Examples          runs of the model at concrete inputs
--
-- How the code is read. A method of the scheduler holds its mutex from start to end, so it is one step;
-- between two picks of a request anything may happen to the scheduler (`World.meanwhile`), and a call
-- ends at another time than its pick (`World.ended`). The store is
-- a database and a schedule of the driver's faults: any statement, begin or Commit may be refused, and
-- a refused one has changed nothing. RowsAffected does not fail. Each declared PRIMARY KEY is kept by
-- SQL, so an UPDATE by key changes the first row with the key. Quotas in SQL are unbounded integers;
-- the costs of Pricing wrap as int64. Text that the code searches is its bytes, with lower case and
-- white space of ASCII; an id is a string. A stored time is one of the readings that the code tells
-- apart (`Stamp`); instants are nanoseconds since 1970, and priorities are natural numbers. A map is
-- its entries in an order of iteration. The threshold of a refund, a float64, is a fraction. New ids and
-- clocks are arguments. While a request is relayed other requests may change the database
-- (`Site.elsewhere`), and so they may between the reads and the UPDATE of a change of role; a handler
-- that panics, and with it the deferred release, is left out.
--
-- Parameters: the adapters and their answers, the regular expressions of the routing table,
-- ParseResetsAt and redactSecrets, the digest of HashWithSalt, the decoders of JSON, the text of a
-- time (`Site.format_time`, by which the log is ordered), the RSA signature, and the escaping of URLs. Log lines are left out. Loops are
-- structural: at most three attempts for each model of the chain, so no fuel is used.
--
-- Not modelled: the OAuth flows, the adapters of the other vendors, PostgreSQL's rewriting, the
-- handlers of the console that only read or pass a body on, RSA and the parsing of its keys, and the
-- plain lists of the store.
pub mod Prelude
pub mod Pricing
pub mod Store
pub mod Gateway
pub mod Payment
pub mod Http
pub mod Examples
