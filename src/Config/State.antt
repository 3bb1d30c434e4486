-- ===== src/Config/State.antt =====
-- src/infra/config.h: the configuration and its defaults.
use range_vec_kv.Base.{ℕ, Bool, true, false, []}
use range_vec_kv.Base.Bytes.{Bytes, bytes}
use range_vec_kv.Base.Int.{ℤ}

pub record ServerConfig : Type 0 where
  pub host : Bytes
  pub port : ℕ
  pub worker_threads : ℕ
  pub graceful_shutdown_timeout_ms : ℕ
  pub max_top_k : ℕ
  pub embedding_dimensions : ℕ
  pub rate_limit_per_second : ℕ
  pub kv_batch_max_records : ℕ
  pub ai_timeout_ms : ℕ
  pub default_collection : Bytes
  pub ai_backend : Bytes
  pub storage_backend : Bytes
  pub search_backend : Bytes
  pub discovery_backend : Bytes
  pub node_id : Bytes
  pub advertise_host : Bytes
  pub node_weight : ℕ
  pub node_zone : Bytes
  pub replication_factor : ℕ
  pub data_migration_enabled : Bool
  pub migration_delete_delay_ms : ℕ
  pub migration_batch_size : ℕ
  pub migration_max_retries : ℕ
  pub migration_task_wal_path : Bytes
  pub cluster_slot_count : ℕ
  pub read_only_mode : Bool
  pub enable_demo_data : Bool
  pub rocksdb_max_background_jobs : ℕ
  pub rocksdb_write_buffer_size_mb : ℕ
  pub rocksdb_max_write_buffer_number : ℕ
  pub rocksdb_target_file_size_mb : ℕ
  pub rocksdb_bytes_per_sync : ℕ
  pub rocksdb_wal_bytes_per_sync : ℕ
  pub rocksdb_enable_pipelined_write : Bool
  pub require_api_key : Bool
  pub api_key : Bytes
  pub tls_mode : Bytes
  pub cluster_nodes : Bytes
  pub model_path : Bytes
  pub tokenizer_path : Bytes
  pub ai_max_tokens : ℕ
  pub wal_path : Bytes
  pub snapshot_path : Bytes
  pub db_path : Bytes
  pub index_path : Bytes
  pub vector_index_outbox_path : Bytes
  pub search_faiss_nlist : ℤ
  pub search_faiss_nprobe : ℤ
  pub openapi_path : Bytes
  pub log_level : Bytes
  pub log_file_path : Bytes
  pub log_file_max_size_mb : ℕ
  pub log_file_max_files : ℕ
  pub etcd_endpoints : Bytes
  pub etcd_prefix : Bytes
  pub etcd_lease_ttl_s : ℕ

-- ServerConfig{}
abbrev pub default_config : ServerConfig
default_config = record {
  host = bytes "127.0.0.1";
  port = 8080;
  worker_threads = 4;
  graceful_shutdown_timeout_ms = 5000;
  max_top_k = 50;
  embedding_dimensions = 32;
  rate_limit_per_second = 200;
  kv_batch_max_records = 1000;
  ai_timeout_ms = 25;
  default_collection = bytes "documents";
  ai_backend = bytes "auto";
  storage_backend = bytes "auto";
  search_backend = bytes "auto";
  discovery_backend = bytes "static";
  node_id = bytes "node-local";
  advertise_host = [];
  node_weight = 100;
  node_zone = bytes "default";
  replication_factor = 1;
  data_migration_enabled = false;
  migration_delete_delay_ms = 300000;
  migration_batch_size = 100;
  migration_max_retries = 5;
  migration_task_wal_path = bytes "./data/migration_tasks.wal";
  cluster_slot_count = 4096;
  read_only_mode = false;
  enable_demo_data = true;
  rocksdb_max_background_jobs = 8;
  rocksdb_write_buffer_size_mb = 128;
  rocksdb_max_write_buffer_number = 6;
  rocksdb_target_file_size_mb = 128;
  rocksdb_bytes_per_sync = 1048576;
  rocksdb_wal_bytes_per_sync = 1048576;
  rocksdb_enable_pipelined_write = true;
  require_api_key = false;
  api_key = [];
  tls_mode = bytes "disabled";
  cluster_nodes = bytes "node-local@127.0.0.1:8080";
  model_path = bytes "./models/clip.onnx";
  tokenizer_path = [];
  ai_max_tokens = 256;
  wal_path = bytes "./data/kvai.wal";
  snapshot_path = bytes "./data/kvai.snapshot";
  db_path = bytes "./data/rocksdb";
  index_path = bytes "./data/kvai.index";
  vector_index_outbox_path = bytes "./data/vector_index_outbox.wal";
  search_faiss_nlist = ℤ.pos 0;
  search_faiss_nprobe = ℤ.pos 0;
  openapi_path = bytes "./docs/openapi.yaml";
  log_level = bytes "info";
  log_file_path = [];
  log_file_max_size_mb = 10;
  log_file_max_files = 3;
  etcd_endpoints = bytes "http://127.0.0.1:2379";
  etcd_prefix = bytes "/rangeveckv/nodes/";
  etcd_lease_ttl_s = 10;
}
