-- ===== src/Lib.antt =====
-- midas: a terminal coding agent. This library models the parts that decide what a conversation, a
-- goal and a view become, and proves what holds of them.
--
-- The parts, and how they meet. A chat starts a run (pkg/agent/loop.go): it sends the
-- conversation to a provider, which answers through an event stream (pkg/ai/stream.go) with an
-- assistant message and its tool calls; the run executes the calls, appends their results, lets
-- the messages that wait in the steering queue (pkg/agent/steering.go) join, and goes on until a
-- response asks for nothing more. A provider may have several keys (pkg/ai/api_key_pool.go).
-- Before a run a long conversation is cut and summarized (pkg/agent/compaction.go). A goal
-- (internal/goal) lives in one file, counts the turns and tokens of its runs, and has a clock.
-- The transcript is shown in a scroll view (internal/tui/scroll_view.go); internal/tui/stack.go
-- divides the rows of the screen, and internal/tui/stdin_buffer.go cuts what the terminal sends
-- into keys and pastes. Between requests a cache warmer (pkg/agent/cache_warmer.go) repeats the
-- last one so that the provider keeps its prefix. The tools of a run change files; the edit tool
-- (internal/tools/edit.go) does so by exact replacements. The hub (pkg/hub) keeps the messages of
-- chat services in a log, which the agent reads and answers.
--
-- The files:
-- - Common, Common/*: tests, lists measured by native numbers, Go's integers (an int is a 64-bit
--   integer; its wrap-around is `wrap64`), strings as bytes with what the package strings does to
--   them, subsequences, a stable sort.
-- - Ai/Message: the messages of pkg/ai/types.go and pkg/ai/model.go. A value of a Go interface is
--   a value, a pointer or a nil pointer of one of its types.
-- - Ai/Stream: EventStream of pkg/ai/stream.go, NewEventStream, Push, End and one round of Next;
--   Ai/Stream/Laws: what each call does to the abstract queue; Ai/Stream/Order: all interleavings
--   of calls.
-- - Ai/KeyPool: APIKeyPoolProvider of pkg/ai/api_key_pool.go: NewAPIKeyPoolProvider, Stream,
--   candidates, markHealthy, markFailure, uniqueAPIKeys; Ai/KeyPool/Candidates and
--   Ai/KeyPool/Attempts: which keys a call tries, and what it leaves behind.
-- - Agent/Calls: toolCalls, and what a transcript with paired calls and results is.
-- - Agent/Steering: SteeringQueue of pkg/agent/steering.go.
-- - Agent/Loop: errors, tools, events and small functions of pkg/agent/loop.go and
--   pkg/agent/types.go; Agent/Loop/Batch: executeToolBatch, executeTool, executeToolAfterStart;
--   Agent/Loop/Assistant: streamAssistant; Agent/Loop/Run: run. Their children hold the theorems.
-- - Agent/Compaction: sizes, ContextTokens and PlanCompaction of pkg/agent/compaction.go;
--   Agent/Compaction/Prompts: its prompts; Agent/Compaction/Summary: Summarize, ApplyCompaction,
--   PreviousSummary and Compact.
-- - Agent/Warmer: CacheWarmer of pkg/agent/cache_warmer.go; Agent/Warmer/Events: its calls,
--   timers and goroutines as steps in any order; its other children: what holds of them.
-- - Goal: goal.go of internal/goal; Goal/Store: the helpers of store.go; Goal/Store/Disk: its
--   write; Goal/Store/Calls: the methods of Store, with the theorems in its children.
-- - Hub: the messages and conversations of pkg/hub/protocol.go; Hub/Store: the state of
--   pkg/hub/store.go and its files; Hub/Store/Log: load, rewriteMessagesLocked and the writing of
--   Append; Hub/Store/Changes: Append, Edit, Delete, React; Hub/Store/Threads: SetThread,
--   MarkRead, Messages; Hub/Store/Listing: Threads; Hub/Store/Calls: OpenStore and the calls in
--   any order, with the theorems in its children.
-- - Tools/Edit: editTool of internal/tools/edit.go; Tools/Edit/Arguments: its arguments;
--   Tools/Edit/Spliced, Tools/Edit/Updated, Tools/Edit/Endings: what the tool does to a file.
-- - Chat/Task: appendBounded and truncateAtRune of internal/chat/task.go.
-- - Tui/ScrollView: ScrollView of internal/tui/scroll_view.go.
-- - Tui/Stack: the allocation of internal/tui/stack.go; Tui/Stack/Children: its children.
--   Tui/StdinBuffer: stdinBuffer of internal/tui/stdin_buffer.go; Tui/StdinBuffer/Sequences:
--   completeInputSequence, runeBoundaries, extractCompleteInputSequences and the patterns. Their
--   other children hold the theorems.
-- - The modules called Examples: runs of the definitions, and the theorems at concrete inputs.
--
-- State is passed explicitly: an operation is a function from a state to a state and its result.
-- A method that holds its mutex throughout is one step, so an interleaving of goroutines is a
-- list of steps: of calls of a stream or a queue, of pushes of the goroutines of a parallel batch
-- (a schedule of choices), of pushes to the steering queue between two boundaries of a turn, of
-- timers that fire between two operations of a view. A method that gives the lock up in between is
-- several steps: the refresh of a cache warmer enters, calls the provider and takes up its answer,
-- and a call over several keys takes what other calls have changed before it notes an attempt. What
-- code outside the model does is an argument: the answer of a provider, the outcome of a tool,
-- what encoding/json does, the error of a context, the clock, random bytes, the step of a file's
-- write that fails, the effect of strconv.Quote.
--
-- Bounds and fuel. A run is a function of the list of turns that the world has answered so far,
-- and ends in `continues` where it waits for the next answer. The loops on fuel are the rounds of
-- a stack's distribution, with the rows to place, the loop of the input buffer, with the bytes it
-- holds and one, and the loops over keys and characters, with the bytes of the text: a round
-- places a row or is the last one, and the others take a byte at least, so that is enough. An
-- instant is a natural number of nanoseconds. Heights, rows and counts of a scroll view are what
-- `max(0, _)` leaves of an int, so they are natural numbers; arguments are 64-bit integers. A
-- list is assumed to have fewer elements than an int counts.
--
-- Not modelled: the channels that only wake a waiting consumer (a wait is a result),
-- EventStream.Result and the wrapper AssistantStream; the fields of a message that no modelled
-- operation reads; the JSON of a goal's file, which is given by what decoding makes of it; the
-- rendering of colours; the prices of a refresh; the JSON of the hub's messages and maps (encoding
-- and decoding are arguments); what a write that fails leaves of an edited file; and the rest of the program: providers, other tools, the hub's
-- bridges, the vault, MCP, storage, the other widgets and the commands.
mod Common
pub mod Ai
pub mod Agent
pub mod Goal
pub mod Chat
pub mod Hub
pub mod Tools
pub mod Tui
