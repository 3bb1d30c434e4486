-- ===== src/Config/Keeps.antt =====
-- Which settings of src/infra/config.cpp keep the bounds of a configuration: the tables of keys, one
-- entry for each.
use range_vec_kv.Base.{ℕ, ◌≤◌, ◌<◌, ◌%◌, ◌^◌, All, arith}
use range_vec_kv.Base.Bytes.{Bytes}
use range_vec_kv.Base.Int.{ℤ}
use range_vec_kv.Config.State.{ServerConfig}
use range_vec_kv.Config.Settings.{
  Setting, text_setting, number_setting, integer_setting, weight_or_100, flat_server, flat_ai,
  flat_storage, flat_search, flat_faiss, flat_cluster, flat_rest,
}
use range_vec_kv.Config.Sections.{
  Reading, read_text, read_unsigned, read_size, read_int, nested_server, nested_gateway, nested_ai,
  nested_search, nested_storage, nested_cluster, nested_security, nested_logging,
}

-- What every loader sees to.
abbrev pub IsSane : ServerConfig → Type 0
IsSane c =
    (c.port < 2 ^ 16)
    × (1 ≤ c.kv_batch_max_records)
    × (1 ≤ c.node_weight)
    × (c.node_weight < 2 ^ 32)
    × (c.ai_timeout_ms < 2 ^ 32)
    × (c.etcd_lease_ttl_s < 2 ^ 32)

-- What the readers of the flat keys see to besides.
abbrev pub IsClamped : ServerConfig → Type 0
IsClamped c =
    IsSane c
    × (1 ≤ c.rocksdb_max_background_jobs)
    × (1 ≤ c.rocksdb_write_buffer_size_mb)
    × (2 ≤ c.rocksdb_max_write_buffer_number)
    × (1 ≤ c.rocksdb_target_file_size_mb)
    × (1 ≤ c.cluster_slot_count)

abbrev pub Keeps : (ServerConfig → Type 0) → Setting → Type 0
Keeps P (text_setting key f) = (t : Bytes) (c : ServerConfig) → P c → P (f t c)
Keeps P (number_setting key f) = (n : ℕ) (c : ServerConfig) → P c → P (f n c)
Keeps P (integer_setting key f) = (z : ℤ) (c : ServerConfig) → P c → P (f z c)

weight_positive : (n : ℕ) → 1 ≤ weight_or_100 (n % 2 ^ 32)
weight_positive n = ground arith

weight_fits : (n : ℕ) → weight_or_100 (n % 2 ^ 32) < 2 ^ 32
weight_fits n = ground arith

infixr 30 ◌&◌
abbrev pub ◌&◌ : {A B : Type 0} → A → B → A × B
a & b = (a, b)

-- A setting that changes no field with a bound.
abbrev keep : {A : Type 0} → A → (c : ServerConfig) → IsClamped c → IsClamped c
keep x c h = h

abbrev keep_sane : {A : Type 0} → A → (c : ServerConfig) → IsSane c → IsSane c
keep_sane x c h = h

pub flat_server-Keeps : All (Keeps IsClamped) flat_server
flat_server-Keeps =
    keep
    & (λ n c h. ((omega arith, h.0.1, h.0.2, h.0.3, h.0.4, h.0.5), h.1, h.2, h.3, h.4, h.5))
    & keep
    & keep
    & keep
    & keep
    & (λ n c h. ((h.0.0, omega arith, h.0.2, h.0.3, h.0.4, h.0.5), h.1, h.2, h.3, h.4, h.5))
    & keep
    & keep
    & tt

pub flat_ai-Keeps : All (Keeps IsClamped) flat_ai
flat_ai-Keeps =
    (λ n c h. ((h.0.0, h.0.1, h.0.2, h.0.3, omega arith, h.0.5), h.1, h.2, h.3, h.4, h.5))
    & keep
    & keep
    & keep
    & keep
    & keep
    & tt

pub flat_storage-Keeps : All (Keeps IsClamped) flat_storage
flat_storage-Keeps =
    keep
    & keep
    & keep
    & keep
    & keep
    & keep
    & keep
    & (λ n c h. (h.0, omega arith, h.2, h.3, h.4, h.5))
    & (λ n c h. (h.0, h.1, omega arith, h.3, h.4, h.5))
    & (λ n c h. (h.0, h.1, h.2, omega arith, h.4, h.5))
    & (λ n c h. (h.0, h.1, h.2, h.3, omega arith, h.5))
    & keep
    & keep
    & keep
    & tt

pub flat_search-Keeps : All (Keeps IsClamped) flat_search
flat_search-Keeps = keep & keep & keep & tt

pub flat_faiss-Keeps : All (Keeps IsClamped) flat_faiss
flat_faiss-Keeps = keep & keep & tt

pub flat_cluster-Keeps : All (Keeps IsClamped) flat_cluster
flat_cluster-Keeps =
    keep
    & keep
    & keep
    & keep
    & (λ n c h.
        ((h.0.0, h.0.1, weight_positive n, weight_fits n, h.0.4, h.0.5), h.1, h.2, h.3, h.4, h.5))
    & keep
    & keep
    & keep
    & keep
    & keep
    & keep
    & (λ n c h. (h.0, h.1, h.2, h.3, h.4, omega arith))
    & keep
    & keep
    & keep
    & (λ n c h. ((h.0.0, h.0.1, h.0.2, h.0.3, h.0.4, omega arith), h.1, h.2, h.3, h.4, h.5))
    & tt

pub flat_rest-Keeps : All (Keeps IsClamped) flat_rest
flat_rest-Keeps = keep & keep & keep & keep & keep & keep & keep & tt

abbrev pub KeepsSane : Reading → Type 0
KeepsSane (read_text key f) = (t : Bytes) (c : ServerConfig) → IsSane c → IsSane (f t c)
KeepsSane (read_unsigned key f) = (n : ℕ) (c : ServerConfig) → IsSane c → IsSane (f n c)
KeepsSane (read_size key f) = (n : ℕ) (c : ServerConfig) → IsSane c → IsSane (f n c)
KeepsSane (read_int key f) = (z : ℤ) (c : ServerConfig) → IsSane c → IsSane (f z c)

pub nested_server-Keeps : All KeepsSane nested_server
nested_server-Keeps =
    keep_sane & (λ n c h. (omega arith, h.1, h.2, h.3, h.4, h.5)) & keep_sane & keep_sane & tt

pub nested_gateway-Keeps : All KeepsSane nested_gateway
nested_gateway-Keeps =
    keep_sane
    & (λ n c h. (h.0, omega arith, h.2, h.3, h.4, h.5))
    & keep_sane
    & keep_sane
    & keep_sane
    & tt

pub nested_ai-Keeps : All KeepsSane nested_ai
nested_ai-Keeps =
    (λ n c h. (h.0, h.1, h.2, h.3, omega arith, h.5))
    & keep_sane
    & keep_sane
    & keep_sane
    & keep_sane
    & keep_sane
    & tt

pub nested_search-Keeps : All KeepsSane nested_search
nested_search-Keeps = keep_sane & keep_sane & keep_sane & keep_sane & keep_sane & keep_sane & tt

pub nested_storage-Keeps : All KeepsSane nested_storage
nested_storage-Keeps =
    keep_sane & keep_sane & keep_sane & keep_sane & keep_sane & keep_sane & keep_sane & keep_sane
    & keep_sane & keep_sane & keep_sane & keep_sane & keep_sane & keep_sane & tt

pub nested_cluster-Keeps : All KeepsSane nested_cluster
nested_cluster-Keeps =
    keep_sane
    & keep_sane
    & keep_sane
    & keep_sane
    & (λ n c h. (h.0, h.1, weight_positive n, weight_fits n, h.4, h.5))
    & keep_sane
    & keep_sane
    & keep_sane
    & keep_sane
    & keep_sane
    & keep_sane
    & keep_sane
    & keep_sane
    & keep_sane
    & keep_sane
    & (λ n c h. (h.0, h.1, h.2, h.3, h.4, omega arith))
    & tt

pub nested_logging-Keeps : All KeepsSane nested_logging
nested_logging-Keeps = keep_sane & keep_sane & keep_sane & keep_sane & tt

pub nested_security-Keeps : All KeepsSane nested_security
nested_security-Keeps = keep_sane & tt
