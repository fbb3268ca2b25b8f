-- ===== src/Lib.antt =====
-- HaiKIT's server: a verification library beside the packages.
--
-- HaiKIT runs an LLM's tools in conversations that a store keeps. A request loads its
-- conversation, which takes a lease on it, runs the agent loop (packages/server/src/runtime.ts),
-- and saves. The store (packages/server/src/store.ts) fences every write by the lease's token.
--
-- Modules:
--   Prelude   shared helpers: tests, lists, strings as lists of UTF-16 code units, maps in
--             insertion order, decimal numbers, and code that mutates and may throw.
--   Core      the records of packages/core/src/index.ts: conversations, messages, notices,
--             payloads; JSON values; Cap is `makeCap`.
--   Store     packages/server/src/store.ts. Storable is `storable` and `storableJson`, Copy is
--             `copy`, Memory has one function for each method of `memoryStore`; Trace puts calls
--             of any clients in a sequence, and Writes says what each call can do.
--   Runtime   packages/server/src/runtime.ts. Types has the interfaces that the runtime stands
--             between, as records that the functions take; Handles is `currentHandle`, Windows is
--             `refuseIfExpired` with its parts, Notices is `announce` and `unreadNotices`, Tools
--             and Invoke are `invokeTool`, Loop is `runTurn`, Start is `send`, `start` and
--             `runInit`, Click is `interact`, Wake is `wake` and `wakeTurn`, Update is `revise`
--             and `reviseHeld`, Queue is `update` and `name`, Notify is `notify` and `signal`.
--             For proofs: Keeps has rules for what a step leaves as it was, Frame applies them to
--             a tool's run, Settled to a call; History says what a complete history is, Batches
--             follows the calls of a reply through it, Complete the rounds of the loop; Undo
--             follows a click up to its commit, Unread the notices in it, Requests a whole click;
--             Beginnings follows the init tool, Starts what is recorded of it, Messages and
--             Openings a whole message and start; Until is a turn before any tool runs, Woken one
--             that notices start, Limits how many start; Revisions, Announced, Updates and Waits
--             follow an update and its notice, Queued, Promised and Waking the calls in a queue
--             to their answers, Notified what a notice stores.
--   Signals   packages/server/src/signals.ts. Types is its state, Broadcast has one function for each
--             method and timer of the class, and runs them in any order; Counts, Departures and
--             Presence follow what it counts, Flush what waits to be published; Lines has the last
--             count among the publishes, Telling follows it through all that a server does.
--   Routes    packages/server/src/routes.ts. Body is `readJson`; Types is a request and its answer,
--             with `refuse`, `openSSE` and `failed`; Respond is `respond`, from the gate to the end
--             of the answer. Reading follows a body's chunks, Answered every path to its answer,
--             Closing a request's conversation to its last save, Strangers what the gate hides.
--   OpenAi    packages/openai/src/mapping.ts. Mapping is `toInput` and `fromOutput`; Replies follows a
--             reply from one to the other.
--   Mcp       packages/mcp/src. Credentials is `memoryCredentialStore` (store.ts), one function for
--             each of its methods; Trace puts calls in a sequence. Registers has what the store promises
--             of credentials, Leases of refreshes, Flows of connect flows. Text is `textOf`
--             (text.ts), Sizes the sizes that it tells.
--   Auth      packages/auth/src. Ownership is `memoryAuthStore` (memory.ts) with `ownerOf`, `claim` and
--             `keep` (index.ts), whose calls of the store land in any order; Kept follows what the
--             server keeps, Owners an answer through all that comes after it.
--
-- How the code corresponds: a method that changes state returns its result beside the new state,
-- and a throw keeps what was written before it. A store call takes the values of `Date.now()` as
-- arguments, and `crypto.randomUUID()` is a parameter, as are `JSON.parse` and the key that
-- `JSON.stringify` makes of two names. In the runtime the store, the model, the clock and the
-- tools are parameters over a world of any type, so what other processes do between two awaits is
-- part of every answer. A tool is a sequence of calls of its context with effects of its own in
-- between.
--
-- Bounds: numbers of milliseconds are whole numbers or not finite; negative and fractional ones
-- are not modelled. The search of `getNotices` has one round more than the list is long, since each
-- halves what is left, and `currentHandle` one more than there are revisions, since each sees one
-- more of them: its loop answers `none` where its rounds run out, apart from every answer of the
-- code, and never does with that many or more. The wait of an update has one round more than its timeout has milliseconds, since
-- each takes one at least. The agent loop recurs on the rounds left of `maxHops`.
--
-- Not modelled: `watch`, `publish` and `subscribe` of the store; tools that call their context
-- concurrently, and `progress`; durations in events (`ms`, `ageMs`); the model's prompt and tool
-- list, which are fixed when a Hai is built; streams and listeners that throw, and two streams
-- with one `emit`; OpenAI's tool schemas; an answer of `ownerOf` that was
-- asked for before a claim and comes after it; of the routes the events stream and its polling, URLs,
-- and fields of a body that are not strings, beside a response that throws; the Postgres store,
-- the clients, tokens, sign-in and its revocations, and the MCP client.
pub mod Prelude
pub mod Core
pub mod Store
pub mod Runtime
pub mod Signals
pub mod OpenAi
pub mod Mcp
pub mod Auth
pub mod Routes
