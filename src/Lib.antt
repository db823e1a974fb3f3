-- ===== src/Lib.antt =====
-- px1, a code-review assistant: the core of its hosted workers, modelled from the Go sources.
--
-- A pull request reaches the hosted service through a webhook. The indexer keeps a graph of the
-- repository up to date, review workers ask language models through the gateway, and what they find is
-- checked, ranked, mapped onto the diff and delivered. Reviewers' reactions come back as feedback that
-- may silence noisy findings, and each review is paid for from a ledger of credits. The parts meet
-- through the records and interfaces that the modules below declare.
--
-- Which file models which part (paths from the repository's root):
--   Review/Finding     internal/hosted/review/finding.go: Finding, Validate, DecodeFindings
--   Review/Rank        internal/hosted/review/rank.go: RankAndCapFindings, stronger, sameFinding
--   Review/LineMap     internal/hosted/review/line_map.go: MapFindingsToDiff
--   Review/ReReview    internal/hosted/review/rereview.go: PlanReReview, rangeChanged, fullSHA
--   Review/Confidence  internal/hosted/review/confidence.go: ScoreConfidence, Validate
--   Review/Addressed   internal/hosted/review/addressed.go: DetectAddressed, containsLineSequence
--   Review/Verifier    internal/hosted/review/verifier.go: FindingVerifier.Verify, decodeDecisions
--   Review/Words, Review/Blocks  internal/hosted/review/blocks.go: GroupBlocks, fileSignals, shared, topic
--   Indexer/Limits     internal/hosted/indexer/limits.go: ApplyRepositoryLimits, SummaryLine
--   Indexer/Reindex    internal/hosted/indexer/reindex.go: PlanReindex, ApplyReindex
--   Indexer/Bytes, Indexer/Split, Indexer/Chunk  internal/hosted/indexer/chunk.go: Chunk, symbolUnits,
--                      splitPiece, boundedEnd, approximateCounter
--   Graph/Resolve      internal/hosted/graph/resolve.go: Resolve, candidatesFor, resolvePath
--   Graph/Incremental  internal/hosted/graph/incremental.go: PlanIncremental, ApplyIncremental
--   Graph/Overlay      internal/hosted/graph/overlay.go: BuildOverlay, symbolKey, sortOverlaySymbols
--   Billing/Gate       internal/hosted/billing/gate.go: Authorize, Enforce
--   Billing/Ledger     internal/hosted/billing/ledger.go: Grant, Reserve, Settle, Refund
--   Billing/Stripe     internal/hosted/billing/stripe.go: Handle, parseStripeSignature, the client calls
--   Learning/Suppression  internal/hosted/learning/suppression.go: DecideSuppression
--   Learning/Links, Learning/Proposals  internal/hosted/learning/proposal_queue.go: Edit, Reject, Accept
--   Learning/Memory    internal/hosted/learning/memory.go: RetrieveMemories
--   Learning/Replies   internal/hosted/learning/replies.go: Process, decodeReplyClassification
--   Llm                internal/hosted/llm/gateway.go: Complete, cost, MemoryCache
--   Webhook            internal/hosted/webhook/handler.go: ServeHTTP, validSignature, Signature
--   Rules/Globs, Rules/Rule, Rules/Team  artifact_rules.go: globRegexp, validateRule, clip,
--                      parseTeamRules; validate_rules.go: validateRulesPath
--   Report/Access      internal/hosted/report/access.go: Begin, ValidateState, Exchange, CanRead
--   Github/Commands    internal/hosted/githubapp/commands.go: ParseCommand, Authorize
--   Config             config_cascade.go: resolveCascadingConfig, decodeConfig, configCandidates
--
-- How Go is read. A struct is a record with the source's field names in snake case; a Go function that
-- returns (T, error) answers a `Result`, whose error is the error's text; where the source returns a
-- value beside an error, the model returns the pair. A loop is a structural recursion over its list.
-- Strings are native texts, that is, Go strings that hold valid UTF-8: `len` counts bytes, and the
-- order is Go's. An int or int64 is a signed integer `ℤ`; `wrap64` writes the wrap-around out where the
-- program adds or multiplies. A finite float64 is an integer multiple of 2^-1074 and compares exactly; a
-- quotient is compared with a literal by its fraction, which is exact for counts below 2^53. A map is an
-- association list, a map[string]bool a list of keys; the order of a map's iteration never shows, since
-- the program sorts what it collects. A position in a content, a count of tokens and an index of a
-- slice are natural numbers, and the IDs -1, -2, … of an overlay do not wrap around. `sort` is a stable
-- insertion sort (Prelude/Sort): where the program calls `sort.Slice`, which may reorder elements that
-- compare as equal, the model has them in their order. Bytes are natural numbers, of any size.
--
-- A store or a service behind an interface is a record of functions over the states `S` of the outside
-- world, which each operation takes and returns; what a theorem needs of it is a record of laws. A
-- retry loop recurses on the retries that are left. Instants and durations are nanoseconds.
--
-- Taken as parameters: the Unicode tables, JSON and quoting, SHA-256 and HMAC, base64, globs and regular
-- expressions, the parsing of URLs, random bytes, the clock, HTTP clients, and the stores, models,
-- publishers, parsers and readers behind the program's interfaces.
-- Contexts and cancellation are not modelled. Where a digit loop takes fuel, twenty digits hold every
-- 64-bit integer. The chunker's loops `for low <= high` and `for start < unit.end` take fuel and answer
-- none when it runs out: the length of the content and one more is enough wherever each character is
-- one byte, and there are texts for which no fuel is enough. `find` takes as fuel one more than the
-- pairs of files, since no link makes a path longer by more than one.
--
-- Not modelled: input and output, HTTP clients and the handlers of the dashboard, templates, the
-- browser report, and SQL.
pub mod Billing
pub mod Config
pub mod Github
pub mod Graph
pub mod Indexer
pub mod Learning
pub mod Llm
pub mod Prelude
pub mod Report
pub mod Review
pub mod Rules
pub mod Webhook
