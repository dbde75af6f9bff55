-- ===== src/Lib.antt =====
-- ShardVault: a verification library for the storage core.
--
-- ShardVault is an object store. A `Store` (crates/shardvault-core/src/segment.rs) writes values to
-- segment files and every change as a record to a write-ahead log (crates/shardvault-core/src/wal.rs),
-- whose records stand in checksummed blocks of 4096 bytes (csrc/block.c behind
-- crates/shardvault-core/src/ffi.rs). A rollup (crates/shardvault-core/src/rollup.rs) counts objects
-- and bytes under every prefix of a key. Stripes (crates/shardvault-core/src/stripe.rs) spread an
-- object over nodes' files by a Reed-Solomon coder (crates/shardvault-ec/src/rs.rs), which works with
-- matrices (crates/shardvault-ec/src/matrix.rs) over GF(256) (crates/shardvault-ec/src/gf.rs).
-- Nodes replicate the log of a leader (crates/shardvault-node/src/node.rs).
--
-- Base      Shared helpers: lists, bytes, UTF-8, association lists, and the errors of
--           crates/shardvault-core/src/error.rs. A `HashMap` or `HashSet` is a list; a key stands once.
-- Gf        gf.rs: the tables by the loops of `build_tables`, and `add`, `mul`, `inv`, `div`. Gf/Checks
--           evaluates the tables, and Gf/Field and Gf/Linear derive the laws from that.
-- Algebra   Sums, kernels, inverses and roots over any field of characteristic two, which Gf/Bytes shows
--           the bytes to be. It has no code of its own.
-- Matrix    matrix.rs: Matrix/Dense has the matrices and their product, Matrix/Invert `invert` and
--           `vandermonde_systematic`. Matrix/View reads a matrix as a function into the field;
--           Matrix/Eliminate follows the elimination, Matrix/Inverse, Matrix/Product and Matrix/Unique say
--           what it returns, and Matrix/Powers and Matrix/Systematic what the encoding matrix is.
-- Rs        rs.rs: Rs/Coder has `new` and `encode`, Rs/Rebuild `reconstruct`. A failed assertion is
--           `none`. Rs/Word and Rs/Recover follow shards from `encode` through a loss to
--           `reconstruct`.
-- Stripe    stripe.rs: Stripe/Shard has `write_shard` and `read_shard`, Stripe/Stripes
--           `StripeWriter::write` and `StripeReader::read`. A node's file is the list of its bytes.
--           Stripe/Files and Stripe/Written follow the shards to the files, Stripe/Losses the files
--           that are left to the shards, and Stripe/Places and Stripe/Join the data. Stripe/Damage says
--           what a damaged file is.
-- Block     block.c and ffi.rs: Block/Codec has the block format, Block/Crc the checksum by its
--           tables. Block/Layer is the interface that the log and the shards' files are built on,
--           and Block/RoundTrip fills it.
-- Rollup    rollup.rs: Rollup/Prefixes has `prefixes_of`, Rollup/Aggregate the methods of `Rollup`.
--           Rollup/Under says which keys lie under a prefix, apart from the loops of the code.
-- Wal       wal.rs: Wal/Encode and Wal/Decode have the record format, Wal/Log the methods of `Wal`. The
--           file is the list of its bytes. Wal/Scan, Wal/Replay, Wal/Durable and Wal/Reopen follow a
--           log through appends, syncs, crashes and restarts: a crash leaves any number of the
--           buffer's bytes behind the file.
-- Segment   segment.rs: Segment/State has `Inner`, `Snap` and `Store`; Segment/Exec the methods that may
--           fail and keep what they changed; Segment/Write `stage_put`; Segment/Publish `sync_all`,
--           `commit` and `flush`; Segment/Apply `apply_record`; Segment/Recover `open_with_options` and
--           `recover`; Segment/Read and Segment/View the reads; Segment/Compact `compact_stage` and
--           `compact_commit`, whose loop over entries takes those of a record as Segment/Chunks does.
--           Segment/Layout says where every object lies as a function of the log.
--           A segment's file is the list of its bytes. Segment/Leader, Segment/Follower,
--           Segment/Restart and Segment/ReadBack follow a put to the followers, through a
--           restart and to a read. Segment/Moved, Segment/Copied and Segment/Repointed follow a value
--           through a compaction, Segment/CompactRun and Segment/CompactSettled the store.
--           Segment/Refused says when a restart refuses the files.
--           Segment/Ready has the invariant of the maps that the theorems on compaction ask for.
-- Node      node.rs and crates/shardvault-node/src/protocol.rs: Node/Frame has the messages, Node/Leader
--           `send_batch`, `process_put` before and behind its wait for a quorum, the acknowledgements
--           and `handle_backfill`; Node/Compaction `process_compact`, Node/Client `handle_client`,
--           Node/Dialer `dialer_loop` and Node/Apply `apply_loop`. Node/Quorum has the leader's
--           threads as a step relation. Node/ReadPut, Node/Horizon and Node/Follow follow a put to a
--           client's read and to a follower, and a compaction to a backfill.
--
-- A `u64` is a natural number, with its wrap-around where the code adds without a check. Strings are
-- lists of UTF-8 bytes. The operating system's calls succeed, but for opening a shard's file that is
-- not there, and the counting of fsyncs in crates/shardvault-core/src/fault.rs has no effect. The
-- scan of a file takes a round for each byte, which is enough, since a round takes a block or ends;
-- so do the chunks and the blocks of a shard. The loop over remap entries takes its number of rounds
-- as an argument; one for each entry is enough where each fits a record of its own.
--
-- Not modelled: sockets, threads and timeouts of a node, the set of nodes that a client declared
-- failed, the wire format of bincode, the command lines, the tests and the Python harness. The locks
-- and the atomic snapshot pointer of a store are one state that one method at a time changes.
pub mod Base
pub mod Rollup
pub mod Gf
pub mod Block
pub mod Wal
pub mod Segment
pub mod Node
pub mod Algebra
pub mod Matrix
pub mod Rs
pub mod Stripe
