-- ===== src/Lib.antt =====
-- A model of the core logic of LazyLayers, a layered cache for Node.js, with its correctness
-- theorems. All paths are those of the repository.
--
-- The program's parts. HybridCache answers from a store in memory (L1) and a shared store (L2), with
-- the origin behind both. Calls of L2 pass through a bounded gate and a circuit breaker. The module
-- src/transactions coordinates operations of several processes over one key of one Redis primary,
-- through a Lua script. The parts modelled are those that keep state or decide:
--
--   Breaker             src/cache/circuitBreaker.ts, the class CircuitBreaker. A call is a function on
--                       the record of its fields (can_call, record_success, record_failure); a
--                       history of calls is a list (Breaker/Trace).
--   L2Gate              src/cache/l2OperationGate.ts, the class L2OperationGate. A method or a
--                       callback (run, expire, time_out, settle, close) is a function on the record of
--                       the fields, and returns what it does to promises as a list of effects.
--   Transactions.Record src/transactions/scripts.ts: the record under a key and validate_record.
--   Transactions.Script src/transactions/scripts.ts: one run of the script (eval) on the content of
--                       the key (Cell), and runs one after another (run_all). Redis runs a script as
--                       one step, so that the runs of all processes are one list.
--   Transactions.Replies src/transactions/types.ts and src/transactions/operationStore.ts: the
--                       requests of RedisOperationStore and the decoding of the replies.
--   MemoryBudget        src/cache/memoryBudget.ts, the class MemoryBudget: the ledger (try_reserve,
--                       release), the targets (adjust) and the eviction (evict_bounded, at most 32
--                       clients are asked in one sample). Clients and the floating-point fractions
--                       are parameters (Clients, Fractions).
--   OriginGate          src/cache/originLoadGate.ts, the class OriginLoadGate, like L2Gate; it holds the
--                       MemoryBudget that it shares.
--   Transactions.Gate   src/transactions/redisTransport.ts, the class BoundedOperationGate, like L2Gate,
--                       with deadlines read from a clock. The transport itself is not modelled.
--   Transactions.Dispatch src/transactions/operationStore.ts, the method dispatch: one command, with all
--                       that the gate, the transport and the network can do to it (Attempt).
--   RetryQueue          src/event-bus/retryQueue.ts, the class EventBusRetryQueue: enqueue, the rounds of
--                       drain (take_next, finish) and clear. The loop of enqueue runs on the number of
--                       entries that wait, which is enough since each round removes one.
--   Transactions.Lease  src/transactions/operationStore.ts, maintainOperationLease: the deadline of a lease
--                       by the local clock, with its timers and renewals as events.
--   HandlerQueue        src/event-bus/handlerQueue.ts, the class EventBusHandlerQueue: enqueue, drain, the
--                       end of a handler (finish), close and discardPending.
--   Lock                src/cache/distributedLock.ts, maintainLock, like Transactions.Lease.
--   HybridCache         src/cache/hybridCache.ts, the class HybridCache, as far as it keeps state of its
--                       own. Revisions and Core: observeKey, releaseKey, isCurrent, toStorageKey. Tables:
--                       a Map with the counter of its bytes, and its children Negative, Stale, Seen and
--                       Inflight with their methods. Trust, Generations, Mutations and Remote: the methods
--                       of these names, cut at their awaits into segments; an operation holds its guard
--                       from its first segment to its last. Machine: any interleaving of segments, with
--                       its children for the budget (Balances), for the limits of the tables (Bounded) and
--                       for the mutations that overtake an operation (Overtaken, Publication). Guards: the
--                       histories of the revisions alone. Ledger: what the segments do to the budget.
--   Pattern             src/cache/pattern.ts: matchesPattern with its search by a failure table. Find: the
--                       search alone, by Occurrences and Failure. Matching: the whole, against Meaning.
--   Transactions.Admission src/transactions/keys.ts and src/transactions/operationStore.ts: what is validated
--                       before a command is dispatched (admit_call).
--   Transactions.Keys   src/transactions/keys.ts: the key of an operation's record (operation_key).
--
-- Prelude passes the names of the libraries on and holds what the parts share: tests on numbers,
-- lists with their sums and their order, numbers of JavaScript, texts, and decimal notation.
--
-- Conventions. Numbers are unbounded, with a bound where the source tests one; times and counters of
-- the source are whole and stay below 2 ^ 53, where the numbers of JavaScript and of Lua are exact.
-- Clocks are arguments. A promise is known by a number, and its answer is an effect in the result of
-- the step that gives it. Texts of the protocol are lists of character codes. Functions are by
-- structural recursion. Two loops have fuel: an eviction of HybridCache runs at most once for each
-- entry, since each round removes one, and the search of Pattern falls back at most as often as
-- characters are matched, since an entry of the failure table is at most its index.
--
-- Parameters. The encoding of records by cjson is the record Codec; CodecLaws says what the script
-- relies on: the encoding of a valid record has at most 2048 bytes and decodes to the record.
-- HybridCache takes the codec of values and `String(Number(text))` as functions, and Transactions.Keys
-- the digest of SHA-256.
--
-- Not modelled. Connections and their clients (Redis, NATS, RabbitMQ, Cloudflare), lru-cache,
-- msgpackr and zlib; logging, metrics and the dashboard; the wiring of the options. Of HybridCache the
-- calls of the tiers, of the loader and of the lock are not modelled, only what the cache does between
-- them; the stores and the serializer are not modelled.
mod Prelude
pub mod Breaker
pub mod HandlerQueue
pub mod HybridCache
pub mod L2Gate
pub mod Lock
pub mod MemoryBudget
pub mod OriginGate
pub mod Pattern
pub mod RetryQueue
pub mod Transactions
