-- ===== src/Lib.antt =====
-- A model of the workflow runtime of the Temporal TypeScript SDK and of its workflow streams.
--
-- The runtime keeps one object per workflow execution, the Activator of
-- packages/workflow/src/internals.ts. The worker hands it activations, lists of jobs from the
-- server; a job settles a promise that workflow code waits for, delivers a message, or tells about a
-- patch. Workflow code runs between the jobs and calls back: it schedules tasks, registers handlers,
-- asks for patches and flags. All calls change the Activator's fields and append commands.
--
-- Activator.antt is its state, field by field, and the monad of its methods: a method returns or
-- throws, and keeps what it wrote. Two logs stand for what goes out of the object: the calls of
-- promise resolvers (`settled`) and the starts of user handlers (`invocations`). The eight maps of
-- `completions` are one map keyed by kind and sequence number. The handlers that settle one promise
-- by another, such as the chain from a child's start to its result, are taken to run at once. Its
-- parts are
--   Activator/Completions, Activator/Nexus: the jobs that settle promises, consumeCompletion
--   Activator/Schedule: the calls of workflow.ts and nexus.ts that create and cancel tasks
--   Activator/Budget, Activator/Jobs: sequences of these calls, and how often a promise is settled
--   Activator/Patches: patchInternal, notifyHasPatch
--   Activator/Flags: hasFlag, addKnownFlags, packages/workflow/src/flags.ts
--   Activator/Failure: handleWorkflowFailure and the error of the workflow task
--   Activator/Mailbox: the loop of dispatchBufferedSignals and dispatchBufferedUpdates, over an
--     interface that Activator/Signals and Activator/Updates fill
--   Activator/Conditions: tryUnblockConditions of packages/workflow/src/worker-interface.ts
-- Errors.antt and Reserved.antt are the error classes and the reserved names of packages/common.
-- JsMap.antt is JavaScript's Map. Streams.antt and its children are the WorkflowStream of
-- contrib/workflow-streams/src/workflow.ts, whose handlers are signals, updates and queries of the
-- runtime; StreamCodec and its children are the base64, the varints and the payloads of
-- contrib/workflow-streams/src/codec.ts. StreamClient and its children are the WorkflowStreamClient of
-- contrib/workflow-streams/src/client.ts: StreamClient/System puts a producer's client, the signals on
-- their way and the stream together, and StreamClient/Subscriber is the loop of subscribe, which polls
-- the stream. CancellationScope and its children are packages/workflow/src/cancellation-scope.ts: the
-- scopes, and the microtasks that pass a rejection on. Activation and its children are the order in
-- which BaseVMWorkflow.activate of packages/worker/src/workflow/vm-shared.ts and `activate` of
-- packages/workflow/src/worker-interface.ts perform the jobs of an activation. Tests applies the
-- theorems to concrete inputs.
--
-- Parameters: converters of payloads and failures (users supply their own), the validators of
-- updates, the activation callback of patches, the predicates of conditions, the codec of stream
-- payloads inside Streams, UTF-8, the length of a JavaScript string, and the regular expressions
-- that read versions.
-- Further parameters: for the stream client, the converter of values, with the test of isPayload, and
-- the description of the run that was polled; for the scopes, what hasFlag answers; for an activation,
-- the runtime whose operations it calls, with the loop that lets workflow code run between batches.
-- A signal of a producer may reach the workflow late, several times or never, and is confirmed only
-- once it has been handled. The sleeps of the client are not modelled, nor are the timer of a scope
-- with a timeout and the current scope.
-- The failure converter may throw on the failure of a workflow and on the rejection of an update that
-- was tried; it is taken to encode the constant failure of rejectBufferedUpdates.
-- A user's handler is a recorded start and a recorded end: what it does in between, in its
-- synchronous part too, is the calls that follow. Interceptors are taken to call the next
-- one once. The input of a signal is taken to be decodable. Error messages are their constant part.
-- An empty text stands for a missing proto field where the code tests both alike.
-- Numbers are natural numbers; the offsets and sequences of a stream are whole and not negative, and
-- its times are in milliseconds.
--
-- Fuel: the dispatch loop has as many rounds as the buffer has messages, since each round takes one
-- out. The loops that decode a payload have as many rounds as there are bytes, and that which writes
-- a varint as many as its number. The loop over conditions has one round more than there are
-- conditions, since each round but the last takes one out.
--
-- Not modelled: the handlers of queries, the conclusion of an activation, timeouts of conditions,
-- random numbers, stack traces, sinks, event groups, the fields of commands, and the packages around
-- the runtime (worker, client, core bridge, testing), which are mostly I/O.
pub mod Prelude
pub mod JsMap
pub mod Errors
pub mod Activator
pub mod Reserved
pub mod Streams
pub mod StreamClient
mod Tests
pub mod StreamCodec
pub mod CancellationScope
pub mod Activation
