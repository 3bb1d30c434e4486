-- ===== src/Config/Bounds.antt =====
-- The values that ConfigLoader of src/infra/config.cpp lets through.
use range_vec_kv.Base.{
  Bool, true, false, Option, none, some, List, [], ◌++◌, All, All-append, if◌then◌else◌, arith,
}
use range_vec_kv.Base.Bytes.{Bytes}
use range_vec_kv.OrderedMap.{Map}
use range_vec_kv.Status.{Try, returned, raised}
use range_vec_kv.Legacy.{lines}
use range_vec_kv.Config.Text.{read_lines}
use range_vec_kv.Routing.Nodes.{Yields}
use range_vec_kv.Config.State.{ServerConfig, default_config}
use range_vec_kv.Config.Settings.{
  Setting, flat_server, flat_ai, flat_storage, flat_search, flat_faiss, flat_cluster, flat_rest,
}
use range_vec_kv.Config.Sections.{Yaml, Loaded, loaded, yaml_threw}
use range_vec_kv.Config.Load.{
  flat_settings, yaml_settings, caught, load_flat_config, load_without_yaml, YamlNode,
  is_nested_format, load_yaml_flat, scalar_values, nested_sections, load_nested_config,
  load_mapping, not_raised,
}
use range_vec_kv.Config.Applied.{Gives, Loads, apply_settings-Gives, apply_sections-Loads}
use range_vec_kv.Config.Keeps.{
  ◌&◌, IsSane, IsClamped, Keeps, flat_server-Keeps, flat_ai-Keeps, flat_storage-Keeps,
  flat_search-Keeps, flat_faiss-Keeps, flat_cluster-Keeps, flat_rest-Keeps, nested_server-Keeps,
  nested_gateway-Keeps, nested_ai-Keeps, nested_search-Keeps, nested_storage-Keeps,
  nested_cluster-Keeps, nested_logging-Keeps, nested_security-Keeps,
}

default_config-IsClamped : IsClamped default_config
default_config-IsClamped = (
  (omega arith, omega arith, omega arith, omega arith, omega arith, omega arith),
  omega arith,
  omega arith,
  omega arith,
  omega arith,
  omega arith,
)

not_raised-Yields :
    (P : ServerConfig → Type 0) (x : Try ServerConfig) → Gives P x → Yields P (not_raised x)
not_raised-Yields P raised g = tt
not_raised-Yields P (returned c) g = g

last_settings-Keeps : All (Keeps IsClamped) (flat_cluster ++ flat_rest)
last_settings-Keeps =
    All-append (Keeps IsClamped) flat_cluster flat_rest flat_cluster-Keeps flat_rest-Keeps

before_search-Keeps :
    (rest : List Setting)
    → All (Keeps IsClamped) rest
    → All (Keeps IsClamped) (flat_server ++ flat_ai ++ flat_storage ++ flat_search ++ rest)
before_search-Keeps rest k =
    All-append (Keeps IsClamped) flat_server (flat_ai ++ flat_storage ++ flat_search ++ rest)
      flat_server-Keeps
      (All-append (Keeps IsClamped) flat_ai (flat_storage ++ flat_search ++ rest) flat_ai-Keeps (
        All-append (Keeps IsClamped) flat_storage (flat_search ++ rest) flat_storage-Keeps
          (All-append (Keeps IsClamped) flat_search rest flat_search-Keeps k)))

yaml_settings-Keeps : All (Keeps IsClamped) yaml_settings
yaml_settings-Keeps = before_search-Keeps (flat_cluster ++ flat_rest) last_settings-Keeps

flat_settings-Keeps : All (Keeps IsClamped) flat_settings
flat_settings-Keeps = before_search-Keeps (flat_faiss ++ flat_cluster ++ flat_rest) (
    All-append (Keeps IsClamped) flat_faiss (flat_cluster ++ flat_rest) flat_faiss-Keeps
      last_settings-Keeps)

load_yaml_flat-IsClamped : (root : Map YamlNode) → Gives IsClamped (load_yaml_flat root)
unfolding load_yaml_flat
load_yaml_flat-IsClamped root =
    apply_settings-Gives IsClamped (scalar_values root []) yaml_settings default_config
      yaml_settings-Keeps default_config-IsClamped

load_nested_config-IsSane :
    (yaml : Yaml) (root : Map YamlNode) → Loads IsSane (load_nested_config yaml root)
unfolding load_nested_config
load_nested_config-IsSane yaml root =
    apply_sections-Loads yaml root nested_sections default_config
      (nested_server-Keeps & nested_gateway-Keeps & nested_ai-Keeps & nested_search-Keeps
        & nested_storage-Keeps & nested_cluster-Keeps & nested_security-Keeps & nested_logging-Keeps
        & tt)
      default_config-IsClamped.0

-- The bounds of a file with sections and of one without.
abbrev pub IsWithin : Bool → ServerConfig → Type 0
IsWithin true c = IsSane c
IsWithin false c = IsClamped c

-- What LoadFromFile has read from a file of flat keys, with yaml-cpp or without it, has at least one
-- record in a batch, one background job, two write buffers, one megabyte in a buffer and in a file,
-- one slot and one as a node's weight, and a port, a weight, a lease and a time limit that fit 16 and
-- 32 bits; from a file with sections it has those of the batch, the weight, the port, the lease and
-- the time limit. Where it returns an error or throws, nothing is said.
pub load-IsWithin :
    (yaml : Yaml) (getenv : Bytes → Option Bytes) (path : Bytes) (text : Option Bytes)
    (root : Map YamlNode)
    → Yields IsClamped (load_without_yaml getenv path text)
      × Yields (IsWithin (is_nested_format root)) (load_mapping yaml root)
unfolding load_without_yaml load_flat_config load_mapping
load-IsWithin yaml getenv path text root = (by_text text, by_format (is_nested_format root))
  where
    by_text : (o : Option Bytes) → Yields IsClamped (load_without_yaml getenv path o)
    by_text none = tt
    by_text (some t) = not_raised-Yields IsClamped (load_flat_config getenv t) (
        apply_settings-Gives IsClamped (read_lines getenv (lines t) []) flat_settings default_config
          flat_settings-Keeps default_config-IsClamped)

    by_loaded : (x : Loaded) → Loads IsSane x → Yields IsSane (returned (caught x))
    by_loaded (loaded c) h = h
    by_loaded (yaml_threw what) h = tt

    by_format :
        (b : Bool)
        → Yields (IsWithin b) (
            if b
            then returned (caught (load_nested_config yaml root))
            else not_raised (load_yaml_flat root))
    by_format true = by_loaded (load_nested_config yaml root) (load_nested_config-IsSane yaml root)
    by_format false =
        not_raised-Yields IsClamped (load_yaml_flat root) (load_yaml_flat-IsClamped root)
