-- ===== src/Gateway/State.antt =====
-- What the gateway keeps and what it calls: the abstract classes KvStore (src/core/kv_store.h) and
-- VectorIndex (src/search/vector_index.h), of which a backend gives the operations.
use range_vec_kv.Base.{ℕ, Bool, Option, List}
use range_vec_kv.Base.Bytes.{Bytes}
use range_vec_kv.Base.Int.{ℤ}
use range_vec_kv.Status.{Status, StatusOr}
use range_vec_kv.Document.{DocumentRecord}
use range_vec_kv.Codec.{Protobuf}
use range_vec_kv.WalStore.{Io}
use range_vec_kv.Outbox.{Outbox, Services}
use range_vec_kv.Routing.{Router}

pub record KvStore (Store : Type 0) : Type 0 where
  pub put : DocumentRecord → Store → Status × Store
  pub batch_put : List DocumentRecord → Store → Status × Store
  pub delete : Bytes → Bytes → Store → Status × Store
  pub get : Bytes → Bytes → Store → StatusOr DocumentRecord
  pub range : Bytes → Bytes → Bytes → ℕ → Store → StatusOr (List DocumentRecord)
  pub flush_snapshot : Store → Status × Store

-- Everything that the gateway calls. `World` is the state of embedding service and vector index.
pub record Backend (Store World Vector : Type 0) : Type 0 where
  pub kv_store : KvStore Store
  pub services : Services World Vector
  pub remove_vector : Bytes → Bytes → World → Status × World
  pub flush_index : World → Status × World
  pub protobuf : Protobuf
  pub hash : Bytes → ℕ

-- The fields of ServerConfig that these calls read.
pub record GatewayConfig : Type 0 where
  pub node_id : Bytes
  pub default_collection : Bytes
  pub read_only_mode : Bool
  pub replication_factor : ℕ
  pub kv_batch_max_records : ℕ
  pub enable_demo_data : Bool

-- `mutation_count` is the counter of PrepareMutation, which lives as long as the process.
pub record Gateway (Store World : Type 0) : Type 0 where
  pub config : GatewayConfig
  pub started : Bool
  pub kv : Store
  pub world : World
  pub vector_outbox : Option Outbox
  pub router : Router
  pub mutation_count : ℕ

-- What a call gets from outside: the time, for each
-- record of a batch in turn where there are many, the trace id that would be generated, the answers of the
-- file system to the outbox, and the rounds that the router's loop may take.
pub record Surroundings : Type 0 where
  pub now_ms : ℤ
  pub batch_ms : ℕ → ℤ
  pub generated_trace : Bytes
  pub io : Io
  pub drain_io : Bytes → Io
  pub fuel : ℕ
