-- ===== src/Lib.antt =====
-- SerdesAI, a framework for agents that call language models: a verification library for the logic
-- that is the framework's own.
--
-- The parts of the program and how they meet. An agent runs a model with a message history, which
-- processors shorten before each call (serdes-ai-agent). A model's answer arrives as a stream of
-- deltas, which the parts manager turns into response parts and events (serdes-ai-streaming). A call
-- that fails is made again by a retry policy (serdes-ai-retries). What the calls cost is counted, and
-- checked against limits (serdes-ai-core). A model may be a chain of fallback models or one that
-- retries, by the same policy (serdes-ai-models). The tools that a model calls come in toolsets, which
-- wrap and combine one another (serdes-ai-toolsets). Tasks from other agents wait in a broker, pass
-- through a state machine, and are run and stored by a worker (serdes-ai-a2a). A graph of nodes passes
-- a state on from node to node (serdes-ai-graph).
--
-- Files and sources:
-- Prelude: native numbers, lists, maps, machine words and results that all parts share. `Map` stands
--   for `HashMap`, `Words` has the wrapping and saturating operations of `u32` and `u64`.
-- Usage: serdes-ai-core/src/usage.rs and the limit errors of serdes-ai-core/src/errors.rs.
--   `Usage` has `RequestUsage`, `RunUsage` and `UsageLimits`; their counts are natural numbers, and
--   sums wrap modulo 2 ^ 64 as they do in a release build.
-- Retries: serdes-ai-retries/src. `Error` is error.rs, `Wait`, `Condition` and the records of `Policy`
--   and `Config` are config.rs, `Backoff` is backoff.rs, and the loops of `Policy`
--   (`with_retry_policy`) and `Config` (`with_retry`, `with_retry_state`) are executor.rs. Durations
--   are numbers. The operation is a function from the number of the attempt to its result and its
--   duration; float arithmetic, tokio's timers and the drawn jitter are parameters. An operation on
--   durations or instants that panics is an outcome of its own.
-- Streaming: serdes-ai-streaming/src/parts_manager.rs, over the part and event types of
--   serdes-ai-core/src/messages. `Text` is `&str` as UTF-8 bytes, where a slice that cuts a character
--   panics; `Part` has the parts and accumulators, `Manager` the state, `Handlers` the delta handlers,
--   `Tags` the splitting of text at thinking tags. `View` is what a consumer of the events sees, and
--   `Session` a sequence of handler calls. serde_json is the parameter `Json`. The timestamps of parts
--   are left out, and so are the fields of deltas that the manager never sets.
-- Repair: `to_json` of tool-call arguments and the repair of malformed JSON before it, of
--   serdes-ai-core/src/messages/parts.rs, over UTF-8 bytes.
-- Sse: serdes-ai-streaming/src/sse.rs, over bytes. `Sse` has `find_event_boundary`, and `Boundary` a pass
--   over the buffer to compare it with; `Event` decodes and reads one event, `Parser` is `SseParser`, and
--   `Stream` is `SseStream` over what a stream of bytes answers to a poll.
-- History: serdes-ai-agent/src/history.rs, over the messages of serdes-ai-core/src/messages. `Message`
--   keeps of a part its kind and its tool-call ID, and all else as one value. `Pairs` removes orphaned
--   tool calls and results, `Truncate` and `Filter` are the processors. The token estimate of a
--   message, computed in floats, is an argument, and sums of estimates stay below 2 ^ 64.
-- Broker: serdes-ai-a2a/src. `Task` is task.rs, without `force_status` in the lifecycle's calls; `Queue`
--   is the in-memory broker of broker.rs, `Storage` the in-memory storage of storage.rs, `Message` the
--   messages of schema.rs, and `Worker` is `process_task` of worker.rs over the three. A method that
--   takes locks is one step, and a cancellation token is a number. What others do with the broker and
--   the storage while the agent runs is an argument, and so is the agent.
-- Models: serdes-ai-models/src. `Failure` is the classification of serdes-ai-core/src/errors.rs, `Error`
--   is error.rs, `Fallback` fallback.rs, and `Retrying` retry.rs over the policies of Retries. A model
--   is a pair of functions of the request, or a script of its calls; a stream is the list of its
--   events. The texts that `thiserror` derives and the errors of other packages are parameters.
-- Tools: serdes-ai-toolsets/src. `Toolset` is the trait of abstract_toolset.rs, as a record of its
--   methods; `Prefixed`, `Combined` and `Guarded` (filtered.rs and approval.rs) wrap toolsets.
-- Graphs: serdes-ai-graph/src. `Graph` has the types, `Validate` is `Graph::validate` with its search for
--   cycles, `Run` the run loop of graph.rs, and `Simple` the graphs whose edges say what comes next. A
--   node object is a value of a type that is a parameter, with its name and its `run` method.
-- Agent: serdes-ai-agent/src. `Types` has the messages, the context and the errors, `Limits` the usage
--   and its limits of context.rs, `State` the agent of agent.rs and the state of a run, `Tools` the
--   execution of tool calls, `Response` what is done with a response, `Run` the step and `Run.Complete`
--   the start and the loop of run.rs. An action takes a state and returns one with its result, which
--   may be an error, a panic, or that it never returns. The model, the tools, the validators, the
--   history processors and the prompts are functions that change a world, a part of the state. The
--   tool calls that run at once make their attempts in the order of a schedule, which is a parameter.
--
-- Bounds and fuel. The loops of `Retries` take a turn for each attempt and have fuel for the maximal
-- number of attempts. The loop over thinking tags has fuel for one turn more than there are bytes,
-- since with tags that are not empty each turn but the last takes a tag away. The search for cycles
-- has fuel for one nested call more than there are nodes, since the nodes being visited differ, and
-- the run of a graph for one turn more than its maximal number of steps; a simple graph has fuel for
-- one node more than it has edges, which is enough without a cycle. The run of an agent has fuel for
-- two turns more than a limit on its requests, since each turn but the last makes one. The loop over
-- unquoted keys has fuel for each character, and the loop over the frames of a buffer of server-sent
-- events for one turn more than there are bytes, since each turn takes bytes away. The theorems on these loops state that they end.
--
-- Not modelled: the model clients, providers, MCP, UI adapters, embeddings, evaluations, macros and the
-- agent's streaming run; they are network clients, serialization, or asynchronous glue. Of the parts
-- above: the tool registry and the toolsets of functions, the executor of graphs with its checkpoints,
-- the HTTP server for tasks, and the streams other than the parts manager and the server-sent
-- events, of which the JSON in an event is left out.
-- Logging, locks and the scheduling of tasks are left out where a part that is modelled has them: an
-- operation on shared state is one step.

mod Prelude
pub mod Usage
pub mod Retries
pub mod Repair
pub mod Sse
pub mod Streaming
pub mod History
pub mod Broker
pub mod Models
pub mod Tools
pub mod Graphs
pub mod Agent
