-- ===== src/Lib.antt =====
-- The EVM Firehose tracer: what a blockchain client reports through hooks becomes, block by block,
-- a trace of transactions, calls and state changes, written as one line for each block.
--
-- The parts and the files that model them. Names of Go functions are spelled in snake case.
--   Ordinal        ordinal.go: the counter that orders everything in a block.
--   Finality       finality.go: the last finalized block.
--   CallStack      callstack.go: the active calls, the top one at the head of a list.
--   Deferred       deferred_call_state.go: changes seen while no call is active.
--   Config         config.go: fork rules and the options that the tracer reads.
--   Types, Hex     types.go and the hexadecimal parsers of types_builder.go.
--   Builders       types_builder.go: the builders of block and transaction events.
--   Keccak         keccak_filter.go: the preimages that explain storage keys.
--   SetCode        setcode.go: the signer of an EIP-7702 authorization, and signing (Signing).
--   Printer        tracer_printer.go: the text of the lines (Line, with Decimal and Words) and the
--                  write loop. Reader is what a reader of the stream makes of a line.
--   Debug          tracer_debug.go: log levels and the views that make the text of arguments.
--   FlushQueue     concurrency.go: the queue of blocks to write.
--   Pb             the records of the generated protobuf types that the tracer fills.
--   Tracer         tracer.go: State (the struct and its guards), Changes, Calls, Transactions,
--                  Completion (the end of a transaction), SystemCalls, Headers, Blocks, Parallel
--                  (isolated tracers) and Lifecycle (initialization and genesis).
-- A client starts a block, calls hooks in it and ends it: Hooks has the hooks as events and runs them.
-- A hook takes the tracer's state and returns the next one or the panic that stops the node. The
-- tracer drives the call stack, the deferred changes and the ordinals; at the end of a transaction the
-- filter attaches preimages; at the end of a block the printer's values are taken and the block is
-- written, or handed to the queue.
-- Ordinals counts where an ordinal is recorded, and Ordinals.Receipts where receipts repeat one.
-- CallTree is an abstract machine of active and completed calls (Machine has its step for each
-- hook) that the hooks refine, with the numbering of calls and the marks of reverted ones.
-- Interrupts, FlashBlocks, Isolation, Receipts, Authorizations and Fees each treat one part of
-- tracer.go. Protocol describes the orders in which a client calls the hooks: calls nested to any
-- depth (Calls), the end of a transaction (Ends), the transactions of a block (Transactions), its
-- way out (Output) and block after block (Blocks); system calls and flash block iterations are not
-- among those orders. Scenarios has concrete runs.
--
-- Numbers. A uint64 or a uint32 is a natural number whose sums are taken modulo 2^64 or 2^32; depths,
-- which are Go ints, do not wrap. Times are Unix seconds. A [n]byte is a list of n bytes, and arrays of
-- one length are compared as the numbers that they stand for. A nil pointer is none.
-- Fuel. The binary search has as many rounds as positions, the words of a preimage and the bytes of a
-- number as many as their length; each is enough, as each round halves the range or takes bytes away.
-- The digits of a number have one round more than the number. The write loop and the preimage filter have
-- the bounds of the code, 10 attempts and 16 rounds.
-- Parameters. Keccak-256, RLP and public key recovery (External), ecdsa.Sign (SigningKey), marshalling, a
-- block's time and base64 (BlockCodec), the state reader, the flush hook and the other functions of the
-- configuration are arguments, as is the output stream (OutputWriter), which takes a line whole or makes
-- the tracer panic; so is the floating point conversion of an amount in a builder.
-- Sorting (slices.SortFunc) is insertion sort: with distinct keys, as call indexes and ordinals are,
-- every sorting function gives the same list.
--
-- Outside the model: the formatting of log messages and what protobuf puts into a payload. A job
-- that the flush queue's worker cannot write panics when the tracer is closed, and not at some
-- time before. A builder is changed in place and shared; here each setter gives a new one. A line
-- that Tracer writes is a value; Printer says which text a block's line is. An isolated tracer
-- holds a copy of the coordinator's block, and what it writes through that pointer is not seen by
-- the coordinator; nor is the sharing of a trace between the fields of an isolated tracer that
-- goes on after its end. A flush hook that shortens a block's lists below a snapshot is outside
-- too.
pub mod Prelude
pub mod Pb
pub mod Types
pub mod Config
pub mod Ordinal
pub mod Finality
pub mod Builders
pub mod CallStack
pub mod Deferred
pub mod Hex
pub mod Keccak
pub mod External
pub mod SetCode
pub mod Printer
pub mod Tracer
pub mod Hooks
pub mod Ordinals
pub mod CallTree
pub mod Interrupts
pub mod FlushQueue
pub mod Isolation
pub mod Receipts
pub mod Authorizations
pub mod FlashBlocks
pub mod Fees
pub mod Protocol
pub mod Debug
pub mod Scenarios
