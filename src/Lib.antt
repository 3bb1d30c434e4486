-- ===== src/Lib.antt =====
-- RangeVecKV: an embedded document store with a write-ahead log, range scans and vector search.
--
-- The program keeps documents in an ordered map from composite keys (collection, unit separator,
-- key) to records. A Put validates the version of a document against the stored one, changes the map
-- and appends an entry to the write-ahead log. A BatchPut does this for a list and logs it at once.
-- FlushSnapshot writes all documents to the snapshot; the log stays. Recover reads snapshot and
-- log back at start-up. Both files are sequences of frames (four bytes of length, a protobuf payload)
-- behind a magic header; older files are lines of text with escapes, which are read and rewritten.
--
-- Files of the development:
-- - Base (and Base/): bytes as lists of numbers, their order, lists, integers.
-- - Status: src/infra/status.cpp and status.h.
-- - Document: the record and the composite key of src/core/document.cpp; Document/Mutation is
--   IsDuplicateMutation and ValidateMutation of src/core/kv_store.cpp.
-- - OrderedMap: std::map with its operations insert-or-assign, emplace, erase, find and lower_bound,
--   as an association list that is kept in the order of the keys.
-- - Codec: src/core/persistence_codec.cpp. The generated protobuf classes are the parameter
--   `Protobuf` (serialisation and parsing of a message); `ProtobufLaws` states that parsing gives
--   back a message that was serialised, for messages that protobuf can represent.
-- - Legacy: Unescape, SplitEscaped, DeserializeMetadata and DeserializeRecord of
--   src/core/kv_store.cpp, with std::stoull and std::stoll as the standard describes them.
-- - WalStore: WriteAheadKvStore of src/core/kv_store.cpp. WalStore/State holds the files
--   and the map, WalStore/Write the operations that change them, WalStore/Read the queries,
--   WalStore/Replay the reading of files in both formats.
-- - Outbox: src/gateway/vector_index_outbox.cpp; the embedding service and the vector index are
--   the interface `Services`, whose answers may depend on a state that each call changes.
-- - RocksStore: RocksDbKvStore of src/core/kv_store.cpp, over the RocksDB calls as a parameter.
-- - ThreadPool: FallbackThreadPoolBackend of src/infra/thread_pool.cpp. Every locked block is an action,
--   and a run is a list of actions of all threads. ThreadPool/Arena is TbbThreadPoolBackend in the same
--   way; of the oneTBB arena it keeps the number of tasks.
-- - Auth: src/gateway/auth.cpp. RateLimiter: FixedWindowRateLimiter of src/gateway/interceptors.cpp.
-- - Routing: src/infra/cluster_routing.cpp, the list of nodes and ConsistentHashRouter; std::hash is the
--   parameter `hash`, with nothing assumed about it.
-- - Gateway: src/gateway/server.cpp, InProcessGatewayServer, over the interfaces `KvStore` and
--   `Backend`; Serving holds its proofs, and `StoreLaws`, what it relies on in a store and what
--   WriteAheadKvStore gives it.
-- - VectorIndex: PersistentVectorIndex of src/search/vector_index.cpp. Floating-point arithmetic,
--   std::stof and std::sort are the parameter `Library`; the generated class of an entry is
--   `EntryFormat`, with `EntryFormatLaws` as for documents.
-- - Migration: src/gateway/data_migration.cpp. The HTTP exchange, the JSON text of the task file and the
--   answer of the router are parameters; Migration/Worker has the search and the deletions,
--   Migration/Service the file and the flags, Migration/Tries a plain description of the tries of
--   the tasks.
-- - Semantic: src/gateway/semantic_search_service.cpp over the answers of the store, the index and the
--   embedding service (`SearchBackend`, `EmbeddingOutcome`). Scores of the keyword search are natural
--   numbers, which `double` represents exactly; std::stable_sort is an insertion sort.
-- - Etcd: src/infra/etcd_discovery.cpp, a build with etcd. The answers of the etcd client are arguments of
--   the operations, the JSON library is the parameter `Json`.
--   Each operation is one step: what a callback of the keep-alive does between the locks of
--   ReloadNodes and Start, and a second Start while the watch thread runs, are not modelled.
-- - Config: src/infra/config.cpp, with each key of both formats in a table. What yaml-cpp makes of a file
--   and its conversions are parameters, as is std::getenv.
-- - Durability, Mutations, Scan: proofs about the store's files, its writes and its scans.
-- - Examples: a concrete codec and concrete stores, tests and applications of the theorems.
--
-- The HTTP services authenticate a request before they call the gateway, which routes it; a write goes
-- to the store and then to the outbox, whose worker hands documents to the vector index.
--
-- Files are lists of bytes. `Io` says for one operation whether the parent directory can be made and
-- whether a file can be opened for writing or for reading; a write to an open file is taken to
-- succeed, and the legacy log that is rewritten is read before it is opened. The mutex of the
-- store makes every operation atomic, so that a run is a list of operations.
--
-- The loop of DecodeFrames runs on fuel: the number of bytes of the text, which is enough since every
-- round takes at least four of them. The walk of Route around the ring takes fuel as an argument:
-- twice the number of points is enough when every node has a point, and there is a ring on which no
-- fuel is enough. The loop over the pages of ReindexDocuments takes fuel too: more rounds than there
-- are documents is enough. The loop over the pages of a migration takes fuel as well. The other
-- loops are structural recursions.
--
-- Not modelled: the opening of RocksDbKvStore's database, FaissVectorIndex (calls of another
-- library), the HTTP and brpc services, logging, metrics, the embedding service, the wiring of the
-- gateway's parts (Start) and its health report. Versions and the like are natural numbers; a number of a
-- document that exceeds its width cannot be represented by protobuf and is excluded by the theorems
-- that need it.
pub mod Auth
pub mod Base
pub mod Codec
pub mod Config
pub mod Document
pub mod Durability
pub mod Etcd
pub mod Examples
pub mod Gateway
pub mod Legacy
pub mod Migration
pub mod Mutations
pub mod OrderedMap
pub mod Outbox
pub mod RateLimiter
pub mod RocksStore
pub mod Routing
pub mod Scan
pub mod Semantic
pub mod Serving
pub mod Status
pub mod ThreadPool
pub mod VectorIndex
pub mod WalStore
