-- ===== src/Config/Settings.antt =====
-- The keys of the flat format in src/infra/config.cpp, in the order in which LoadFlatConfig reads them.
use range_vec_kv.Base.{ℕ, ◌==◌, ◌%◌, ◌^◌, ltb, max, List, [], ◌∷◌, none, some, if◌then◌else◌}
use range_vec_kv.Base.Bytes.{Bytes, bytes}
use range_vec_kv.Base.Int.{ℤ}
use range_vec_kv.OrderedMap.{Map, find}
use range_vec_kv.Status.{Try, returned, raised}
use range_vec_kv.Legacy.{stoull, stoll}
use range_vec_kv.Config.State.{ServerConfig}
use range_vec_kv.Config.Text.{parse_bool}

-- A key and what its value does to the configuration, as it is or as std::stoul or std::stoi reads it.
pub data Setting : Type 0 where
  text_setting : Bytes → (Bytes → ServerConfig → ServerConfig) → Setting
  number_setting : Bytes → (ℕ → ServerConfig → ServerConfig) → Setting
  integer_setting : Bytes → (ℤ → ServerConfig → ServerConfig) → Setting

abbrev pub weight_or_100 : ℕ → ℕ
weight_or_100 n = if n == 0 then 100 else n

abbrev pub int_or_raise : ℤ → Try ℤ
int_or_raise (ℤ.pos n) = if ltb n (2 ^ 31) then returned (ℤ.pos n) else raised
int_or_raise (ℤ.negsuc n) = if ltb n (2 ^ 31) then returned (ℤ.negsuc n) else raised

-- std::stoi
unfoldable pub stoi : Bytes → Try ℤ
stoi text = elim (stoll text) [ raised ↦ raised | returned z ↦ int_or_raise z ]

-- One `if` of LoadFlatConfig, where std::stoul reads as std::stoull does.
unfoldable pub apply_setting : Map Bytes → Setting → ServerConfig → Try ServerConfig
apply_setting values (text_setting key f) c = elim (find key values) [
  | none ↦ returned c
  | some t ↦ returned (f t c)
]
apply_setting values (number_setting key f) c = elim (find key values) [
  | none ↦ returned c
  | some t ↦ elim (stoull t) [ raised ↦ raised | returned n ↦ returned (f n c) ]
]
apply_setting values (integer_setting key f) c = elim (find key values) [
  | none ↦ returned c
  | some t ↦ elim (stoi t) [ raised ↦ raised | returned z ↦ returned (f z c) ]
]

unfoldable pub apply_settings : Map Bytes → List Setting → ServerConfig → Try ServerConfig
apply_settings values [] c = returned c
apply_settings values (s ∷ rest) c = elim (apply_setting values s c) [
  | raised ↦ raised
  | returned d ↦ apply_settings values rest d
]

abbrev pub flat_server : List Setting
flat_server =
    text_setting (bytes "server.host") (λ t c. record c { host = t })
    ∷ number_setting (bytes "server.port") (λ n c. record c { port = n % 2 ^ 16 })
    ∷ number_setting (bytes "server.worker_threads") (λ n c. record c { worker_threads = n })
    ∷ number_setting (bytes "server.graceful_shutdown_timeout_ms")
        (λ n c. record c { graceful_shutdown_timeout_ms = n % 2 ^ 32 })
    ∷ number_setting (bytes "search.max_top_k") (λ n c. record c { max_top_k = n })
    ∷ number_setting (bytes "gateway.rate_limit_per_second")
        (λ n c. record c { rate_limit_per_second = n })
    ∷ number_setting (bytes "gateway.kv_batch_max_records")
        (λ n c. record c { kv_batch_max_records = max 1 n })
    ∷ text_setting (bytes "gateway.require_api_key")
        (λ t c. record c { require_api_key = parse_bool t })
    ∷ text_setting (bytes "gateway.api_key") (λ t c. record c { api_key = t })
    ∷ []

abbrev pub flat_ai : List Setting
flat_ai =
    number_setting (bytes "ai.timeout_ms") (λ n c. record c { ai_timeout_ms = n % 2 ^ 32 })
    ∷ text_setting (bytes "ai.model_path") (λ t c. record c { model_path = t })
    ∷ text_setting (bytes "ai.tokenizer_path") (λ t c. record c { tokenizer_path = t })
    ∷ number_setting (bytes "ai.max_tokens") (λ n c. record c { ai_max_tokens = n })
    ∷ number_setting (bytes "ai.embedding_dimensions")
        (λ n c. record c { embedding_dimensions = n })
    ∷ text_setting (bytes "ai.backend") (λ t c. record c { ai_backend = t })
    ∷ []

abbrev pub flat_storage : List Setting
flat_storage =
    text_setting (bytes "storage.default_collection") (λ t c. record c { default_collection = t })
    ∷ text_setting (bytes "storage.backend") (λ t c. record c { storage_backend = t })
    ∷ text_setting (bytes "storage.read_only_mode")
        (λ t c. record c { read_only_mode = parse_bool t })
    ∷ text_setting (bytes "storage.enable_demo_data")
        (λ t c. record c { enable_demo_data = parse_bool t })
    ∷ text_setting (bytes "storage.wal_path") (λ t c. record c { wal_path = t })
    ∷ text_setting (bytes "storage.snapshot_path") (λ t c. record c { snapshot_path = t })
    ∷ text_setting (bytes "storage.db_path") (λ t c. record c { db_path = t })
    ∷ number_setting (bytes "storage.rocksdb_max_background_jobs")
        (λ n c. record c { rocksdb_max_background_jobs = max 1 n })
    ∷ number_setting (bytes "storage.rocksdb_write_buffer_size_mb")
        (λ n c. record c { rocksdb_write_buffer_size_mb = max 1 n })
    ∷ number_setting (bytes "storage.rocksdb_max_write_buffer_number")
        (λ n c. record c { rocksdb_max_write_buffer_number = max 2 n })
    ∷ number_setting (bytes "storage.rocksdb_target_file_size_mb")
        (λ n c. record c { rocksdb_target_file_size_mb = max 1 n })
    ∷ number_setting (bytes "storage.rocksdb_bytes_per_sync")
        (λ n c. record c { rocksdb_bytes_per_sync = n })
    ∷ number_setting (bytes "storage.rocksdb_wal_bytes_per_sync")
        (λ n c. record c { rocksdb_wal_bytes_per_sync = n })
    ∷ text_setting (bytes "storage.rocksdb_enable_pipelined_write")
        (λ t c. record c { rocksdb_enable_pipelined_write = parse_bool t })
    ∷ []

abbrev pub flat_search : List Setting
flat_search =
    text_setting (bytes "search.backend") (λ t c. record c { search_backend = t })
    ∷ text_setting (bytes "search.index_path") (λ t c. record c { index_path = t })
    ∷ text_setting (bytes "search.vector_index_outbox_path")
        (λ t c. record c { vector_index_outbox_path = t })
    ∷ []

abbrev pub flat_faiss : List Setting
flat_faiss =
    integer_setting (bytes "search.faiss_nlist") (λ z c. record c { search_faiss_nlist = z })
    ∷ integer_setting (bytes "search.faiss_nprobe") (λ z c. record c { search_faiss_nprobe = z })
    ∷ []

abbrev pub flat_cluster : List Setting
flat_cluster =
    text_setting (bytes "cluster.discovery_backend") (λ t c. record c { discovery_backend = t })
    ∷ text_setting (bytes "cluster.node_id") (λ t c. record c { node_id = t })
    ∷ text_setting (bytes "cluster.advertise_host") (λ t c. record c { advertise_host = t })
    ∷ text_setting (bytes "cluster.node_zone") (λ t c. record c { node_zone = t })
    ∷ number_setting (bytes "cluster.node_weight")
        (λ n c. record c { node_weight = weight_or_100 (n % 2 ^ 32) })
    ∷ number_setting (bytes "cluster.replication_factor")
        (λ n c. record c { replication_factor = n })
    ∷ text_setting (bytes "cluster.data_migration_enabled")
        (λ t c. record c { data_migration_enabled = parse_bool t })
    ∷ number_setting (bytes "cluster.migration_delete_delay_ms")
        (λ n c. record c { migration_delete_delay_ms = n })
    ∷ number_setting (bytes "cluster.migration_batch_size")
        (λ n c. record c { migration_batch_size = n })
    ∷ number_setting (bytes "cluster.migration_max_retries")
        (λ n c. record c { migration_max_retries = n })
    ∷ text_setting (bytes "cluster.migration_task_wal_path")
        (λ t c. record c { migration_task_wal_path = t })
    ∷ number_setting (bytes "cluster.slot_count") (λ n c. record c { cluster_slot_count = max 1 n })
    ∷ text_setting (bytes "cluster.nodes") (λ t c. record c { cluster_nodes = t })
    ∷ text_setting (bytes "cluster.etcd_endpoints") (λ t c. record c { etcd_endpoints = t })
    ∷ text_setting (bytes "cluster.etcd_prefix") (λ t c. record c { etcd_prefix = t })
    ∷ number_setting (bytes "cluster.etcd_lease_ttl_s")
        (λ n c. record c { etcd_lease_ttl_s = n % 2 ^ 32 })
    ∷ []

abbrev pub flat_rest : List Setting
flat_rest =
    text_setting (bytes "gateway.openapi_path") (λ t c. record c { openapi_path = t })
    ∷ text_setting (bytes "security.tls_mode") (λ t c. record c { tls_mode = t })
    ∷ text_setting (bytes "log.level") (λ t c. record c { log_level = t })
    ∷ text_setting (bytes "logging.level") (λ t c. record c { log_level = t })
    ∷ text_setting (bytes "logging.file_path") (λ t c. record c { log_file_path = t })
    ∷ number_setting (bytes "logging.file_max_size_mb")
        (λ n c. record c { log_file_max_size_mb = n })
    ∷ number_setting (bytes "logging.file_max_files") (λ n c. record c { log_file_max_files = n })
    ∷ []
