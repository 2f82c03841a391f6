-- ===== src/Lib.antt =====
-- TRUEOS-Picasso: the parts of the crate that keep state, modelled and proved.
--
-- src/cubism.rs is an execution ring in memory that a CPU producer and a GPU executor share. A
-- producer acquires a slot, writes its payload and publishes it; an executor submits the published
-- generation and retires it once its timeline is complete. src/runtime_assets.rs keeps named assets
-- of a running program in two tables of the key-value store redb. src/glTFredb.rs is the durable
-- catalog of imported assets: revisions, a tracking overlay and derived artifacts.
-- src/lib.rs has a smaller library that keeps the chunks of whole GLB files. src/cam.rs is a fly
-- camera that the user's keys and pointer drive. The parts do not call each other; all but the ring
-- and the camera stand on redb, and two share how a payload is cut into chunks.
--
--   Prelude         shared helpers: Boolean tests, lists, results, state with errors, 64-bit words,
--                   and f32 as a parameter
--   Cubism          src/cubism.rs
--     Types         headers, errors, ranges, the ring, the visibility hooks (`VisibilityOps`)
--     Ring          `ExecRing`: `from_raw_parts`, `initialize_fresh`, ranges, `try_acquire`
--     Slots         `CpuSlot` and `PublishedSlot`: `publish`, `drop`, `mark_in_flight`, `retire`
--     Layout        where slots and ranges lie
--     Phases        the life of one slot, and each operation as a move between phases
--     System        any number of producers and executors, one method call a step
--   Camera          src/cam.rs: `Projection`, `Quaternion`, `Camera`
--     Matrix        `multiply_mat4`, `invert_mat4`, `identity_mat4`
--     Retained      `Camera::retained`
--     Fly           `FlyCam`: `set_speed`, `look`, `roll`, `step`, and opposed keys
--       Ui4         `step_ui4` and `handle_ui4_pointer_event` over UI4's frames and events
--   Text            strings as code points, decimal numerals
--   Redb            what the program relies on of redb, and values stored in chunks
--   RuntimeAssets   src/runtime_assets.rs: `insert`, `get`, `remove_embedded_asset`, names
--     Backend       `RamImageBackend`: `read`, `write`, `set_len`
--     Owner         `Picasso`: `new`, `from_image`, `into_image`, `fork_runtime_database`, `put_embedded_asset`
--   Catalog         src/glTFredb.rs
--     Types, Keys   records, errors, serde's codecs; the keys of the tables
--     Reading       `Store::revision`
--     Tracking      `set_tracking`, `tracking`, `initialize_tracking`
--     Derived       `put_derived`, `derived`, and histories of a store
--     Blobs         the loops of `put_blob` and `blob`
--     Import        `import` as one transaction; what it writes for each item of the document
--       Items, Records, Parsing, Writes, Collect    the document, the records, `Prepared::parse`, the writes
--       Frame, Loops, Seeding, Written, Publish     what a successful import has changed
--       Payloads, Source, History, Loads            buffers, the source's blob, later imports, loads
--   Library         `glb_library` of src/lib.rs: `dump_glb_bytes` and the loads of its parts
--   Mass            src/nosql.rs: `encode_record` and `decode_record`
--     Files         what the program relies on of a file system
--     Catalog       the transactions, and `info`, `read_range`, `read`
--     Store         `put` step by step; which objects a call touches, and what is read after it
--   Metadata        src/glb_metadata.rs: `inspect_glb_reader`
--
-- Memory is a record with the header and the payload of each slot and a ghost log of the hooks'
-- calls; a method takes it and returns its answer beside the memory after it. Every atomic store
-- of a method is written out in the source's order. An early return by `?` drops the token, as in
-- Rust, so `publish` ends with `drop_after`. Methods are atomic steps of the model: races inside
-- `try_acquire` are not modelled, nor are the weaker views of a GPU without coherence; what the
-- hooks find in memory at their call is. u64 and usize are natural numbers with the overflow of
-- checked and wrapping arithmetic written out; addresses are 64-bit. The model of the loop of
-- `try_acquire` counts `slot_count` rounds, the bound of the source's own loop.
--
-- redb is a parameter: `Redb.Table` has its calls, each of which may fail, with its documented
-- laws, and `Engine` says which transactions and buffers are granted. `Redb.Assoc` is a concrete
-- table that meets the laws. A transaction that does not commit leaves the database as it was.
-- The loop over chunks of `get` runs over `length.div_ceil(chunk)` rounds, as in the source.
--
-- gltf's document is a parameter, a record of what the import reads of each item, as are the base64
-- engine and the map of external files. The counter of revisions wraps at 2^64, as an unchecked
-- addition does in a release build.
--
-- The loop of `blob` has no bound of its own: it takes fuel, and its theorem says how much is enough.
-- Its i32 index would overflow after 2^31 chunks, or 2^47 bytes, and has no bound in the model.
--
-- The file system of src/nosql.rs is a parameter: an abstract state with what each path holds, and
-- calls that may fail; a write that fails may have written a part.
--
-- serde_json is a parameter too: a `Codec` writes and reads one type. Codecs of records without floats
-- that a theorem reads back are `IsExact`; those of nodes and cameras, whose floats may not be finite,
-- are not assumed to be. A text is the list of its code points, and `len` counts its bytes in UTF-8.
--
-- f32 is a parameter, `Prelude.Floats.Float`: its operations, and as hypotheses what IEEE 754 and
-- Rust say of zero and of `max`. Nothing of rounding is assumed. UI4 is a parameter too: a frame
-- gives its routes and the state of its keyboard, or fails. Log lines of src/cam.rs are left out.
--
-- Not modelled: `import_file` and the opening of the stores in src/glTFredb.rs and
-- src/nosql.rs, src/core.rs and src/grid.rs (plain data, hardly any behaviour),
-- `Display` and `Debug` output, and what redb, gltf, UI4 and the allocator do inside.
pub mod Prelude
pub mod Cubism
pub mod Camera
pub mod Text
pub mod Redb
pub mod RuntimeAssets
pub mod Catalog
pub mod Library
pub mod Mass
pub mod Metadata
