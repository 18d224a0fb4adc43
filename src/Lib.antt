-- ===== src/Lib.antt =====
-- oxideav-source: generic input sources for media (`src/`).
--
-- The crate turns a URI into a seekable reader of bytes. `src/uri.rs` splits a URI and decodes
-- escapes; `src/data.rs`, `src/slice.rs` and `src/concat.rs` parse and write the typed URIs;
-- `src/mem.rs` keeps a table of buffers; `src/sub.rs` shows a window of a reader, and
-- `src/concat.rs` several readers as one; `src/file.rs` opens files, `src/scope.rs` only those that
-- allow and deny lists admit; `src/buffered.rs` reads ahead of a caller on a thread of its own;
-- `src/lib.rs` dispatches on the scheme, also for the URIs inside
-- `slice:` and `concat:` ones.
--
-- The files:
-- - Prelude: bytes, lists, results, tests, UTF-8, the errors that the code builds.
-- - Uri, Uri/Split, Uri/Percent: `src/uri.rs`. Uri/Paths says which path a text names, independently
--   of the code, and that the `file` driver and the scopes compute it.
-- - Base64, Data and the modules below them: `src/data.rs`. `Data.parse`, `Data.new` and
--   `Data.format` are `parse`, `DataUri::new` and `DataUri::format`; so for Slice (`src/slice.rs`,
--   with Decimal for numbers) and Concat (`src/concat.rs`).
-- - Source: what `Read` and `Seek` of a `BytesSource` are (`Source`), and what they promise
--   (`IsSource`): a state serves a content from a position; a read returns the next bytes and moves
--   on, and is empty only for an empty buffer and at the end; a seek goes to its target, or is
--   refused with `InvalidInput` where there is none in a `u64`; a device may fail instead, with the
--   content as it was.
-- - Mem: the table and its reader (`src/mem.rs`); Sub: the window (`src/sub.rs`); ConcatReader: the
--   composite (`src/concat.rs`), both over any inner source, a parameter with the promise as its
--   hypothesis.
-- - Open: the openers and the dispatcher (`src/lib.rs`, `src/file.rs` and the `open` functions of the
--   others). A boxed reader is a sum; readers inside one are a level down. `open_bytes` has a number
--   of levels; each nested URI takes one and is shorter, so that more levels than bytes are enough.
-- - Scope: `src/scope.rs`. Paths are bytes with their components on Unix; `canonicalize` is a
--   parameter at each call, since the file system changes between them.
-- - Open/Registry: `with_defaults` and `register`, for any `SourceRegistry`.
-- - Open/Contents, Open/Leaves, Open/Outcomes: what a URI stands for, or why it does not open.
-- - Buffered: `src/buffered.rs`. Ring has the state behind the lock (`RingState`), Builder
--   `BufferedSourceBuilder`, Reader what `read` and `seek` do under the lock, Worker what
--   `worker_loop` does there, and System the two threads. A step is what one of them does from one
--   lock to the next unlock, or one call of the worker on the inner source; which step comes next,
--   spurious wake-ups and timeouts are choices, and so is the layout of the deque that a read copies
--   from. The loop in `read` has two rounds of fuel, which are enough, since a ring that it drains is
--   not full any more. Blocking has the schedule in which the worker runs only while the reader waits
--   and no wait times out (a read waits at most twice, for at most five steps of the worker), and
--   Sequential the source that the two threads are then. The other modules are proofs: Invariant,
--   Working and Contract have the invariants.
-- - Fuzz: `fuzz/fuzz_targets`. Compose and Drive are `compose_open.rs`, whose script builds a URI and
--   a model of its content and then drives both; Parse is `uri_parse.rs`. A panic is an error with its
--   message. `read_upto` has as many rounds of fuel as bytes are asked for, and the main loop one more
--   than the script has bytes; both are enough, since every round takes one. Buffered is
--   `buffered_model.rs`, with the same loop over a `BufferedSource`. Draws, Leaves, Opening, Joining,
--   Composed and Composing are about what the script builds; Reading, Landing, Driving and Passing
--   about the loop; Contracts about the parsers; Buffering about `buffered_model`.
-- - Examples: the theorems at concrete inputs.
--
-- Numbers are naturals; what a `u64` cannot hold is written out (`add_u64`, `checked_add`). A string
-- is its bytes. Messages are their templates. A state is passed on explicitly; the locks around the
-- table and the slot make each operation one step.
--
-- Not modelled: `SourceRegistry` (a parameter) and the rest of `oxideav_core`, which are not
-- in the repository; `std::fs` and `from_utf8_lossy`, parameters; allocation failure; the tests and
-- the benches, which call the library at fixed inputs.
pub mod Prelude
pub mod Uri
pub mod Base64
pub mod Data
pub mod Decimal
pub mod Slice
pub mod Concat
pub mod Source
pub mod Mem
pub mod Sub
pub mod ConcatReader
pub mod Open
pub mod Scope
pub mod Buffered
pub mod Fuzz
pub mod Examples
