-- ===== src/Lib.antt =====
-- Determa State for Rust: a model of a statechart engine with a durable checkpoint host, and of what makes
-- its parts correct.
--
-- The engine (src/format1) compiles a bundle of machines into tables of states and runs an aggregate of
-- them: an event is handled by a transition, deferred, or unhandled; a transition exits states up to its
-- boundary and enters others. The host (src/checkpoint) keeps an aggregate in a checkpoint, with receipts
-- and an outbox of effects, and stores checkpoints behind a trait that swaps a record only if the one stored
-- is the one that was read. The parts of the model:
--
-- [Prelude] Boolean tests, lists and texts that the parts share.
-- [State.Paths] src/format1/runtime.rs, `is_descendant`, `path_depth`, `direct_child_path`, on the bytes of
--   a path.
-- [State.Machine] the tables of src/format1/compile.rs and the configuration in `RuntimeState`.
-- [State.Outcome] `Result<_, StepFault>`, with a panic and the end of fuel as results of their own, so that
--   a theorem that the code returns excludes both.
-- [State.Config, State.ByDepth] `RuntimeState::config` and the order in which states are asked and exited.
-- [State.Search, State.Select] `select_handler` and `structural_recall_eligible`, which share the loop up
--   from each leaf past the states that were visited. The fuel bounds the states on the way up; more than
--   the depth of the candidates and one is enough. Guards are asked through a parameter, for CEL and external
--   providers.
-- [State.Boundary] `ancestors_to_root`, `lowest_common_ancestor`, `transition_boundary`, and the exits of
--   `perform_transition`, with the same fuel. What `exit_state` does besides leaving the configuration, and
--   whether it faults, is a parameter.
-- [State.Active, State.Shape] `validate_active_configuration`, with the same fuel, and
--   `validate_machine_shape` of src/format1/runtime.rs.
-- [Codes] the closed code sets: of src/format1, runtime.rs, source.rs (Codes.Loading), native.rs
--   (Codes.Persisting) and inspection.rs (Codes.Inspecting); of src/checkpoint, types.rs and store.rs.
-- [Mailbox] src/format1/v1.rs: `admit_v1` (Mailbox.Admit) appends deliveries to the ready mailboxes of an
--   aggregate's runtimes, and `step_v1` (Mailbox.Step) gives the head of one to the engine and rewrites
--   the document by the answer: the head leaves or is deferred, mailboxes of runtimes that are gone are
--   disposed, internal emissions are queued, and deferred entries are recalled. A restore tests
--   the mailboxes by `validate_mailbox_integrity` (Mailbox.Integrity, its sets as lists) and
--   `validate_mailbox_semantics` (Mailbox.Semantics). The document is a record, as the JSON schema makes
--   it. The records Engine and Definitions hold what is called and not modelled here: the engine's step and
--   its checks of a delivery and of a queued event, the resolver, digests, schemas, and the projection
--   of payloads. A step that removes the sender of an internal event seals a state that the restore
--   refuses; Tests.Queues runs one.
-- [Checkpoint] src/checkpoint/v1.rs, the checkpoint as a record, `seal_checkpoint`, `guard`, and the
--   operations on outbox effects. The digest and the whole validation of a sealed checkpoint are a
--   parameter, the record Sealing, and the canonical text and the hash that both digests of an intent are
--   made with are another, the record Hashing; Checkpoint.Retained is the validation's part about the
--   outbox. Counters are numbers without a bound, as the code's big integers are; the text of an
--   expected revision is the decimal of one, or any other text.
-- [Store] src/checkpoint/store.rs and src/checkpoint/adapters/memory.rs. The operations of
--   `ExecutionStore` are a record, and Store.Contract gives laws for a store while it answers no error
--   of its own; the in-memory store keeps them, and what its clients may rely on follows. Beside it stand the portable names, the host profiles, the configuration text
--   of the durable adapters and their compact retention policy.
-- [Tests] concrete inputs, runs, and each theorem applied at one.
--
-- A map of the source is an association list or a function, a set the list of its elements or its
-- membership test. That a machine's states form a tree (State.Search.Total.IsTree) is a hypothesis here: it
-- is what `compile_state` builds.
--
-- Not modelled: the loading and the checks of source documents, CEL, typed values and their JSON, entry,
-- history and the actions of a transition, components and spawned instances,
-- migration, inspection, providers, the host's order of calls, the other adapters, the extension registry, the
-- public host and the command line. The first of these call third-party packages; the others are parts
-- of their own.
pub mod Prelude
pub mod State
pub mod Mailbox
mod Tests
pub mod Codes
pub mod Checkpoint
pub mod Store
