-- ===== src/Lib.antt =====
-- A verification library for lets_embed.
--
-- The repository serves an image search. Its edge is the Cloudflare worker `user_worker`, which
-- keeps an account for each user (a Durable Object with its own storage), takes crypto payments
-- for points, and sells plans with quotas; the gateway worker charges the account for each view
-- and search before it forwards a request. The other crates compute embeddings and search them.
-- The library models the parts that hold the money, the doors in front of them, the search engine
-- and the claims of the embedding pipeline.
--
-- - Prelude: tests, lists, maps, i64/u64/u128 arithmetic with its wrap-around, text as a list of
--   code points, hexadecimal reading and printing, and Rust's Result with `?`.
-- - Config (user_worker/src/config.rs): prices and windows, `Plan`, `PLANS` and `plan`, and in
--   Config.Tokens the registry of payment tokens. Config.Listed has what holds of every plan.
-- - Account (user_worker/src/account_do.rs, with the protocol of user_worker/src/types.rs): Wire
--   has the requests and replies, Decide the pure decisions, Storage the keys of the object, and
--   Status, Charge, Credit, Plans and Object one function for each handler, from the clock, the
--   request and the storage to the reply and the storage. Fetch is the routing of `fetch`.
--   `Object.run` is a life of an object: the runtime delivers one event after another, as the
--   input gates of a Durable Object do. A handler takes the readings of the clock that it makes:
--   `now`, and `later` for the status report that it answers with.
-- - Rates (user_worker/src/rates.rs): `points_for`, and in Rates.RoundData the decoding of the
--   answer of a Chainlink price feed.
-- - Payments (user_worker/src/payments.rs): Chain has what a top-up on Ethereum checks of the
--   transaction, its receipt, its logs and the head of the chain, ending in a `Verdict`; Flow has
--   the payment rows, the statements on them and `topup_ethereum`. A credit reaches the account
--   object of the address by `Account.Credit.credit`. `Lock.Step` interleaves the requests: the
--   insert of the row and the conclusion are separate steps. Solana has the verification of a
--   transaction (user_worker/src/solana.rs) over the values of Json, Handlers the handler of top-ups,
--   and Subscription the handlers that change a subscription and mirror its plan.
-- - Session (user_worker/src/session.rs): the tokens of sessions and the principals they name. The
--   checking half is repeated in gateway_worker/src/lib.rs.
-- - Siwe (user_worker/src/siwe.rs): Message reads a sign-in message, Rfc3339 its timestamps, and
--   Address recovers its signer and writes the checksummed address.
-- - Login (user_worker/src/auth.rs and user_worker/src/solana_link.rs): Users has the table and the
--   statements on it, World the nonces and the end of both logins, Ethereum and Wallet the handlers,
--   Site what the checks of a message show,
--   and `Life.run` a sequence of requests, each handled before the next. The nonces are those that
--   the store still has; that they run out is not a step. An account is touched by `Object.init`.
-- - Likes (user_worker/src/likes.rs): Handlers has the handlers over the table, and Likes itself the
--   page that `list` selects and a client that follows its cursors (`walk`, whose fuel is the number
--   of pages it is ready to ask for).
-- - GatewayWorker (gateway_worker/src/lib.rs): Form reads a field of a form, Proxy makes the request
--   that is sent on, and Metering has `gateway`, from the request and the account objects to the
--   answer and the objects after it. It charges by `Account.Charge.charge`.
--
-- - DoClient (user_worker/src/do_client.rs): a call of an account object by `Account.Object.handle`,
--   whose answer comes back or is lost before or after the object has worked on it.
-- - Admin (user_worker/src/admin.rs): Access is the check of a Cloudflare Access token with the key
--   set that the key-value store holds, Style, Templates and Page the text of the page, and Handlers
--   the handlers over the users and the account objects. `Handlers.serve` is the routes.
-- - SearchEngine (search_engine/src/lib.rs, with the types of search_types/src/lib.rs): Random has
--   the sample that a seed stands for, Lazy a model with the task that unloads it, as a step relation
--   over times, Rows the tables and the clauses of SQL, Queries and Details the queries, and
--   Embedding the searches by embedding with their caches.
-- - Embed (embed/src/cli.rs and embed/src/phase.rs): Images has the claims and the writes on the
--   table of images, where each statement is one step, Infer what becomes of a batch, and Phase the
--   counter of images for each phase.
-- - Gateway (gateway/src/jwt.rs and gateway/src/main.rs): Jwt is the check of a token with the keys
--   that the background thread refreshes, Ingress the filters of requests and responses.
--
-- How the state corresponds to the code: each storage key is a field of `Storage`, `none` while
-- the key is absent; the maps `seen:{day}` and the markers `credit:{key}` are tables, from the day
-- and the key. Balances are i64, so integers with the wrap of a release build (`add_i64`,
-- `sub_i64`); times are u64 (`add_u64`, `sub_u64`); `saturating_sub` is the subtraction of ℕ. The
-- product of `prorated_refund` is exact, since an i128 holds every product of an i64 and a u64.
--
-- The ids of likes and the times that are written with them are bound `as f64`, which
-- `Prelude.Float` rounds as the source does; the theorems have the range in which nothing is lost.
-- The 11 doublings of `unit_of` are enough for every i64.
--
-- Bounds: `Prelude.Decimal.decimal`, which prints a number, takes fuel: its 19 and a last digit
-- are enough for every u64. `Likes.walk` takes the pages a client asks for. All other definitions
-- recurse on their arguments. Theorems on sums of points have the hypothesis that the sum fits
-- into i64, and theorems on the end of a period that it fits into u64.
--
-- Parameters: the decoding of a request body by serde (`Fetch.Decode`), and the decoding of base58
-- (`Payments.Handlers`, `Payments.Solana.valid_signature`). Inputs of a top-up
-- (`Payments.Flow.Trip`): the answers of the node and of the price feed, the clock, which
-- statements the database carries out, and whether the call of the account object is answered.
-- Session.Codec (base64, HMAC, JSON) and Siwe.Address.Crypto (keccak, hexadecimal, curve) are
-- records of library functions, with what the theorems rely on in IsCodec and IsCrypto.
--
-- The models, their hash, the tests of text by the database and the order by distance are parameters
-- of SearchEngine (`Embedding.Models`, `Queries.Db`), and what an administrator's token is checked
-- with is `Admin.Access.AccessLib`, for the gateway `Gateway.Jwt.Lib`.
--
-- Not modelled: errors of the storage API, which abort a handler; the encoding of replies as JSON;
-- network calls; cookies as they are made; requests of the login that interleave; the fixed pages of
-- the user worker; the list of payments; the start of the gateway's server, the search application, the image
-- conversion and the crates of the models, which for the most part call libraries for the network,
-- the user interface, images and tensors; downloads, decoding and pacing of the embedding pipeline.
pub mod Account
pub mod Admin
pub mod Config
pub mod DoClient
pub mod Embed
pub mod Gateway
pub mod GatewayWorker
pub mod Likes
pub mod Login
pub mod Payments
pub mod Prelude
pub mod Rates
pub mod SearchEngine
pub mod Session
pub mod Siwe
