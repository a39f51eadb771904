-- ===== src/Lib.antt =====
-- REINS runs coding agents for projects on the machines of its users. Its server (packages/backend)
-- talks to nodes (packages/node) over links (packages/node-protocol) and shows sessions, changes and
-- code reviews in the browser (packages/frontend). This library models parts of these packages and
-- proves how they behave.
--
-- Base holds what all parts share: lists and tests over the native numbers, texts as lists of UTF-16
-- code units, and tables of numbers.
--
-- Link, packages/node-protocol/src:
-- * Link/Rpc is rpc.ts. A `Peer` (Effects) is the state that `createRpcPeer` closes over, and each
--   operation returns the next state and the effects it causes in order: frames written, handlers
--   queued for the next microtask, calls settled, the socket closed. `call`, `abandon` and `notify` are in Calls, `beat` in
--   Heartbeat, `receive` and the answers of handlers in Inbound. Trace joins them into a step: a
--   handler that finishes, a timer or an abort that fires and a socket that fails are steps too, so a
--   run is any order in which they may happen. An id `rpc-<k>` is the number k. JSON values, their
--   sizes and their schemas are parameters, and a step says whether the socket took what was written.
--   Settling, Flight, Bounds, Closing, Remembered, Evolving and Late hold the
--   proofs.
-- * Link/Ndjson is local-socket.ts. Framing is `receive` of `createNdjsonSocket`, Queue is `send`,
--   `flush` and `shut`. The UTF-8 codec, the consumer of frames and the stream are parameters. The loop
--   of `receive` runs on the size of the chunk as its fuel: each round takes a byte at least. `flush`
--   runs down the queue. Chunks, Delivery and Order hold the proofs.
--
-- Review, packages/backend/src/models/code-review.ts: Model has the records of a review, Operations the
-- methods of the class `CodeReview`, which return the changed review or the error thrown. Identity
-- and Laws hold the proofs.
--
-- Shell, packages/frontend/src/models/tools/bash-command-parser.ts: Split is `splitOnOperators`,
-- Command is `extractCommand` with its regular expressions written out, and Segments is
-- `parseCommandSegments`. The loops of `extractCommand` run on the length of the text as their fuel:
-- each match takes a unit at least. Scan, Faithful, Words and Operators hold the proofs.
--
-- Patch, packages/frontend/src/models/changes/patch.ts: Hunks is `parseHunks`, with its regular
-- expressions written out, Lines is `splitText` and `joinText`, Reverse is `reversePatch`, Extract
-- is `extractFile`. Describes says what a patch means and compares `reversePatch` with it, Whole
-- compares `extractFile` with `reversePatch`, and Carriage is about carriage returns. The numbers
-- in a hunk's header are exact, where the source has floating-point numbers.
--
-- Chat, packages/frontend/src/models/chat-state.ts: State has the state and the events, Reducer is
-- `applyChatEvent` with the functions it calls. Changes has what else changes the live messages, `endRun`
-- of conversations-store.ts with it. A table of tool calls is a list of pairs. Streams,
-- Distinct and Tools hold the proofs.
--
-- Streams, packages/backend/src/nodes/node-streams.ts: Registry is `createStreamRegistry`. A stream id
-- is the number of its opening, where the source takes a random UUID. The platform's body stream
-- is its unread bytes; a consumer's reads and cancellations are operations. Ending, Buffers and
-- Content hold the proofs.
--
-- Supervisor, packages/backend/src/supervisor.ts: Services has the constants and `createServices`,
-- Process is `runSupervisor`. Exits, timers and signals are operations, which say whether a process
-- can be spawned and how long it was up. Single, Alive, Runs, Stopping and Backoffs hold the proofs.
--
-- Diff, packages/backend/src/models/diff-parser.ts: Unified is `parseUnifiedDiff`, with its regular
-- expressions written out, and Numbering is `parsePatch`, Numstat is `parseNumstat`. Counting,
-- Numstats and Lost hold the proofs.
--
-- Serving, packages/node/src/node-connection/streams.ts: Pump is `createStreamSender`. A source is its
-- chunks and how it ends, the connection answers each chunk that is sent, and the text decoder is a
-- parameter. A binary stream has none, and the proofs are of binary streams: the decoding of text may
-- change bytes that are no UTF-8. The fuel of `pieces_from` is the length of the chunk, and each piece takes at least one
-- byte. Frames, Sends, Prefix and Whole hold the proofs, Arrival those with the registry of Streams.
--
-- AppClient, packages/frontend/src/models/ws-client.ts: Connection is `AppClient`, with the browser's
-- events and timers as operations. Delays are in sixteenths of a millisecond. Reachable has the states
-- that the browser's events lead to.
--
-- Routing, packages/frontend/src/routing: Router is `FrontendRouter` of router.ts, AppRoutes the routes
-- and hashes of app-router.ts. The platform's coding of URI components and queries is a parameter.
-- Splitting and RoundTrip hold the proofs.
--
-- Markdown, packages/frontend/src/models/streaming-markdown.ts and the segments of
-- components/markdown-content.ts: Lines has the regular expressions, Scan is `scanSettledMarkdown`, a
-- recursion over the text with the line so far, and Segments is `StreamingMarkdownSegments`. Restart,
-- Whole, Settled and Growing hold the proofs.
--
-- Runs, packages/backend/src/sessions/session-runs.ts: Store has the rows, Pi's storage and the budget
-- of resumes, Replies what a wait answers, Settling is `runSettled` and Recovery the loops that give runs
-- up. A row holds what the queries join to it. Pi's storage may be another one at each run that is given
-- up. Budget, Rows, Sweep and Interrupted hold the proofs.
--
-- Cache, packages/frontend/src/models/stores/session-cache.ts: Sessions has the records with
-- `sessionEquals`, Operations is `SessionCache`, each operation with the sessions that it notifies of.
-- Equality, Mirror and Details hold the proofs.
--
-- Anchors, packages/backend/src/models/review-diff-anchor.ts: Select is `reviewAnchorFromPatch`, over Diff
-- and with the anchors of Review; the hash is a parameter. Sides, Cuts and Files say what the lines of a
-- side and the files of a patch are, apart from the code. Pieces and Evidence hold the other proofs.
--
-- Not modelled: the SQL stores and the HTTP routes, which are glue around outside services; the agent
-- runtime and the extensions, which drive third-party libraries; the parts that start processes, read
-- files or call git; and the components of the frontend, which render.
pub mod Base
pub mod Link
pub mod Markdown
pub mod Review
pub mod Shell
pub mod Patch
pub mod Chat
pub mod Streams
pub mod Supervisor
pub mod Diff
pub mod Serving
pub mod AppClient
pub mod Routing
pub mod Runs
pub mod Cache
pub mod Anchors
