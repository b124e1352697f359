-- ===== src/Lib.antt =====
-- The bee node, a node of the IOTA network in Rust: its core logic, and what makes it correct.
--
-- Peers connect over TCP. A connection's bytes are cut into messages, first by the handshaker and,
-- once both sides agree on a version and the peer is known to the manager, by the peer worker, which
-- passes requests and transactions on to other workers through channels. A transaction that is new to
-- the hash cache is uncompressed, read from its trits and inserted in the tangle, the graph of all
-- transactions; a thread beside marks those whose whole past is there. What is missing is requested
-- from peers, which answer from their own tangles; milestones of the coordinator say how far the
-- tangle is solid. Transactions form bundles,
-- which are validated as a whole, and a confirmed bundle changes the balances of the ledger.
--
-- The files and the code they model, each file by the name of the module it stands for:
--   Common/* are the helpers: numbers, bytes, lists, results, maps and sets.
--   Message/* model bee-protocol/src/message: Header and Tlv the encoding of tlv/, one file for each
--     message type of v0, v1 and v2, Compression and Version the files of these names. `Message` is
--     the trait, a record of operations, and `IsLawful` is what the encoding needs of each type.
--   Peer/Reader models `message_handler`, which peer.rs and handshaker.rs of bee-protocol/src/worker/peer
--     share word for word; its client is a parameter. Peer/Worker models the rest of peer.rs,
--     Peer/Handshaker the rest of handshaker.rs, Peer/Sender bee-protocol/src/worker/sender.rs,
--     Peer/Manager bee-protocol/src/peer, Peer/Metrics bee-protocol/src/protocol/metrics.rs.
--   HashCache models bee-protocol/src/worker/transaction/tiny_hash_cache.rs.
--   Tangle models bee-tangle/src/{tangle,vertex}.rs; Tangle/Walk the walk over the approvees, and
--     Tangle/Solidifier bee-tangle/src/solidifier.rs, as a function and, in Tangle/Solidifier/System,
--     as a thread whose steps interleave with those of the threads that insert.
--     Tangle/Hash has the hashes and their weight, Tangle/Walk/Trunk the walks along the trunk.
--   Bundle/* model bee-bundle/src: Transaction its fields, Builder, FromTrits and IntoTrits the
--     building, the reading and the writing of a transaction, Incoming the validation of a bundle,
--     Outgoing its making, and Diff what it changes at its addresses.
--   Protocol models the state that the workers of bee-protocol/src share, and its helpers.rs;
--     Protocol/Codec the conversions between transactions and messages, Protocol/Transactions
--     worker/transaction/transaction.rs, Protocol/Requests worker/requester, worker/responder and
--     worker/broadcaster.rs, Protocol/Solidification worker/solidifier, Protocol/Milestones
--     milestone/ and worker/milestone_validator.rs, Protocol/Queue util/wait_priority_queue.rs.
--   Ledger models bee-ledger/src/worker.rs.
--   Ternary models bee-ternary/src/num_conversions.rs, Ternary/T3b1 and Ternary/T5b1 the bytes of
--     bee-ternary/src/{t3b1,t5b1}.rs, Ternary/Utrit the digits of trit/unbalanced.rs.
--   Crypto models CurlP of bee-crypto/src/sponge/curlp.rs, and the digest of sponge.rs.
--   Signing/Normalize models bee-signing/src/normalize.rs.
--
-- How: a struct is a record that is passed on, an enum a data type, a panic `none`, an error a
-- `Result`. A HashMap or a DashMap is an association list, a HashSet a list. A w-bit integer is a
-- number with its wrap-around written out; an i64 is a `ℤ` in its range. What a worker sends is the
-- list of what the channel was given. `Hash` is a number where only its identity counts.
--
-- Loops on fuel: the reader's loop takes at most two rounds for each byte, one for the header and
-- one for an empty payload, and two more; `min_trits` takes at most 40 rounds, since 41 trits hold
-- every value up to 2 ^ 63; the solidifier takes one round for the hash that it starts with and one
-- for each approver that is listed, since a hash is marked at most once; the walk takes one for the
-- root and two for each vertex. That the fuel is enough is part of what is proved. The loop that
-- looks for the hash of an outgoing bundle has no bound in the code: its fuel is an argument, and is
-- enough when it exceeds the number of obsolete tags that are tried in vain.
--
-- `trunk_walk_approvers` follows the approvers upwards, and ends because no transaction approves
-- itself: its fuel is an argument, and is enough when it exceeds the rank of every transaction.
--
-- Parameters: XxHash64, the sponges, the signature schemes and the verification of a milestone's
-- signature, which may panic, the clock, the random numbers, the heap of a queue and the own configuration are
-- arguments of what uses them. Not modelled: logging; sockets and tasks, of which only the chunks
-- that arrive are seen; the storage, the proof of work, Kerl and the signatures, which are
-- separate algorithms; the other encodings of trits in bytes; the start and the shutdown of the
-- workers, and how the runs of two workers interleave.
pub mod Common
pub mod Message
pub mod Peer
pub mod Ledger
pub mod HashCache
pub mod Ternary
pub mod Signing
pub mod Bundle
pub mod Tangle
pub mod Protocol
pub mod Crypto
