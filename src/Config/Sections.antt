-- ===== src/Config/Sections.antt =====
-- The sections of the nested format in src/infra/config.cpp. A section is a mapping whose entries are
-- scalars or something else; the conversions of yaml-cpp are the parameter `Yaml`.
use range_vec_kv.Base.{ℕ, ◌%◌, ◌^◌, max, Option, none, some, List, [], ◌∷◌}
use range_vec_kv.Base.Bytes.{Bytes, bytes}
use range_vec_kv.Base.Int.{ℤ}
use range_vec_kv.OrderedMap.{Map, find}
use range_vec_kv.Config.State.{ServerConfig}
use range_vec_kv.Config.Text.{parse_bool}
use range_vec_kv.Config.Settings.{weight_or_100}

pub data YamlEntry : Type 0 where
  scalar : Bytes → YamlEntry
  not_scalar : YamlEntry

-- What `as` makes of a scalar; none means that it throws a YAML::Exception.
pub record Yaml : Type 0 where
  pub as_unsigned : Bytes → Option ℕ
  pub as_size : Bytes → Option ℕ
  pub as_int : Bytes → Option ℤ
  pub exception_text : Bytes → Bytes

-- A key of a section and how it is read: by ReadString or ReadBool, which pass over what is not a
-- scalar, or by `as`.
pub data Reading : Type 0 where
  read_text : Bytes → (Bytes → ServerConfig → ServerConfig) → Reading
  read_unsigned : Bytes → (ℕ → ServerConfig → ServerConfig) → Reading
  read_size : Bytes → (ℕ → ServerConfig → ServerConfig) → Reading
  read_int : Bytes → (ℤ → ServerConfig → ServerConfig) → Reading

-- A configuration, or the text of the YAML::Exception.
pub data Loaded : Type 0 where
  loaded : ServerConfig → Loaded
  yaml_threw : Bytes → Loaded

abbrev pub convert :
    {A : Type 0}
    → (Bytes → Option A)
    → (Bytes → Bytes)
    → Bytes
    → Option YamlEntry
    → (A → ServerConfig → ServerConfig)
    → ServerConfig
    → Loaded
convert as_type what key none f c = loaded c
convert as_type what key (some not_scalar) f c = yaml_threw (what key)
convert as_type what key (some (scalar t)) f c = elim (as_type t) [
  | none ↦ yaml_threw (what key)
  | some x ↦ loaded (f x c)
]

-- ReadString and ReadBool
abbrev pub read_scalar :
    Option YamlEntry → (Bytes → ServerConfig → ServerConfig) → ServerConfig → ServerConfig
read_scalar none f c = c
read_scalar (some not_scalar) f c = c
read_scalar (some (scalar t)) f c = f t c

unfoldable pub apply_reading : Yaml → Map YamlEntry → Reading → ServerConfig → Loaded
apply_reading yaml node (read_text key f) c = loaded (read_scalar (find key node) f c)
apply_reading yaml node (read_unsigned key f) c =
    convert yaml.as_unsigned yaml.exception_text key (find key node) f c
apply_reading yaml node (read_size key f) c =
    convert yaml.as_size yaml.exception_text key (find key node) f c
apply_reading yaml node (read_int key f) c =
    convert yaml.as_int yaml.exception_text key (find key node) f c

unfoldable pub apply_readings : Yaml → Map YamlEntry → List Reading → ServerConfig → Loaded
apply_readings yaml node [] c = loaded c
apply_readings yaml node (r ∷ rest) c = elim (apply_reading yaml node r c) [
  | yaml_threw what ↦ yaml_threw what
  | loaded d ↦ apply_readings yaml node rest d
]

abbrev pub nested_server : List Reading
nested_server =
    read_text (bytes "host") (λ t c. record c { host = t })
    ∷ read_unsigned (bytes "port") (λ n c. record c { port = n % 2 ^ 16 })
    ∷ read_size (bytes "worker_threads") (λ n c. record c { worker_threads = n })
    ∷ read_unsigned (bytes "graceful_shutdown_timeout_ms")
        (λ n c. record c { graceful_shutdown_timeout_ms = n % 2 ^ 32 })
    ∷ []

abbrev pub nested_gateway : List Reading
nested_gateway =
    read_size (bytes "rate_limit_per_second") (λ n c. record c { rate_limit_per_second = n })
    ∷ read_size (bytes "kv_batch_max_records") (λ n c. record c { kv_batch_max_records = max 1 n })
    ∷ read_text (bytes "openapi_path") (λ t c. record c { openapi_path = t })
    ∷ read_text (bytes "require_api_key") (λ t c. record c { require_api_key = parse_bool t })
    ∷ read_text (bytes "api_key") (λ t c. record c { api_key = t })
    ∷ []

abbrev pub nested_ai : List Reading
nested_ai =
    read_unsigned (bytes "timeout_ms") (λ n c. record c { ai_timeout_ms = n % 2 ^ 32 })
    ∷ read_text (bytes "backend") (λ t c. record c { ai_backend = t })
    ∷ read_text (bytes "model_path") (λ t c. record c { model_path = t })
    ∷ read_text (bytes "tokenizer_path") (λ t c. record c { tokenizer_path = t })
    ∷ read_size (bytes "max_tokens") (λ n c. record c { ai_max_tokens = n })
    ∷ read_size (bytes "embedding_dimensions") (λ n c. record c { embedding_dimensions = n })
    ∷ []

abbrev pub nested_search : List Reading
nested_search =
    read_size (bytes "max_top_k") (λ n c. record c { max_top_k = n })
    ∷ read_text (bytes "backend") (λ t c. record c { search_backend = t })
    ∷ read_text (bytes "index_path") (λ t c. record c { index_path = t })
    ∷ read_text (bytes "vector_index_outbox_path")
        (λ t c. record c { vector_index_outbox_path = t })
    ∷ read_int (bytes "faiss_nlist") (λ z c. record c { search_faiss_nlist = z })
    ∷ read_int (bytes "faiss_nprobe") (λ z c. record c { search_faiss_nprobe = z })
    ∷ []

abbrev pub nested_storage : List Reading
nested_storage =
    read_text (bytes "default_collection") (λ t c. record c { default_collection = t })
    ∷ read_text (bytes "backend") (λ t c. record c { storage_backend = t })
    ∷ read_text (bytes "read_only_mode") (λ t c. record c { read_only_mode = parse_bool t })
    ∷ read_text (bytes "enable_demo_data") (λ t c. record c { enable_demo_data = parse_bool t })
    ∷ read_text (bytes "wal_path") (λ t c. record c { wal_path = t })
    ∷ read_text (bytes "snapshot_path") (λ t c. record c { snapshot_path = t })
    ∷ read_text (bytes "db_path") (λ t c. record c { db_path = t })
    ∷ read_size (bytes "rocksdb_max_background_jobs")
        (λ n c. record c { rocksdb_max_background_jobs = n })
    ∷ read_size (bytes "rocksdb_write_buffer_size_mb")
        (λ n c. record c { rocksdb_write_buffer_size_mb = n })
    ∷ read_size (bytes "rocksdb_max_write_buffer_number")
        (λ n c. record c { rocksdb_max_write_buffer_number = n })
    ∷ read_size (bytes "rocksdb_target_file_size_mb")
        (λ n c. record c { rocksdb_target_file_size_mb = n })
    ∷ read_size (bytes "rocksdb_bytes_per_sync") (λ n c. record c { rocksdb_bytes_per_sync = n })
    ∷ read_size (bytes "rocksdb_wal_bytes_per_sync")
        (λ n c. record c { rocksdb_wal_bytes_per_sync = n })
    ∷ read_text (bytes "rocksdb_enable_pipelined_write")
        (λ t c. record c { rocksdb_enable_pipelined_write = parse_bool t })
    ∷ []

abbrev pub nested_cluster : List Reading
nested_cluster =
    read_text (bytes "discovery_backend") (λ t c. record c { discovery_backend = t })
    ∷ read_text (bytes "node_id") (λ t c. record c { node_id = t })
    ∷ read_text (bytes "advertise_host") (λ t c. record c { advertise_host = t })
    ∷ read_text (bytes "node_zone") (λ t c. record c { node_zone = t })
    ∷ read_unsigned (bytes "node_weight")
        (λ n c. record c { node_weight = weight_or_100 (n % 2 ^ 32) })
    ∷ read_size (bytes "replication_factor") (λ n c. record c { replication_factor = n })
    ∷ read_text (bytes "data_migration_enabled")
        (λ t c. record c { data_migration_enabled = parse_bool t })
    ∷ read_size (bytes "migration_delete_delay_ms")
        (λ n c. record c { migration_delete_delay_ms = n })
    ∷ read_size (bytes "migration_batch_size") (λ n c. record c { migration_batch_size = n })
    ∷ read_size (bytes "migration_max_retries") (λ n c. record c { migration_max_retries = n })
    ∷ read_text (bytes "migration_task_wal_path") (λ t c. record c { migration_task_wal_path = t })
    ∷ read_size (bytes "slot_count") (λ n c. record c { cluster_slot_count = n })
    ∷ read_text (bytes "nodes") (λ t c. record c { cluster_nodes = t })
    ∷ read_text (bytes "etcd_endpoints") (λ t c. record c { etcd_endpoints = t })
    ∷ read_text (bytes "etcd_prefix") (λ t c. record c { etcd_prefix = t })
    ∷ read_unsigned (bytes "etcd_lease_ttl_s") (λ n c. record c { etcd_lease_ttl_s = n % 2 ^ 32 })
    ∷ []

abbrev pub nested_security : List Reading
nested_security = read_text (bytes "tls_mode") (λ t c. record c { tls_mode = t }) ∷ []

abbrev pub nested_logging : List Reading
nested_logging =
    read_text (bytes "level") (λ t c. record c { log_level = t })
    ∷ read_text (bytes "file_path") (λ t c. record c { log_file_path = t })
    ∷ read_size (bytes "file_max_size_mb") (λ n c. record c { log_file_max_size_mb = n })
    ∷ read_size (bytes "file_max_files") (λ n c. record c { log_file_max_files = n })
    ∷ []
