-- ===== src/Config/Load.antt =====
-- ConfigLoader::LoadFromFile of src/infra/config.cpp, with yaml-cpp and without it.
use range_vec_kv.Base.{
  Bool, true, false, Option, none, some, List, [], ◌∷◌, ◌++◌, map, if◌then◌else◌,
}
use range_vec_kv.Base.Bytes.{Bytes, bytes}
use range_vec_kv.OrderedMap.{Map, find, insert_or_assign}
use range_vec_kv.Status.{
  StatusOr, value, status, invalid_argument, not_found, internal, Try, returned, raised,
}
use range_vec_kv.Legacy.{lines}
use range_vec_kv.Config.State.{ServerConfig, default_config}
use range_vec_kv.Config.Text.{expand, read_lines}
use range_vec_kv.Config.Settings.{
  Setting, apply_settings, flat_server, flat_ai, flat_storage, flat_search, flat_faiss,
  flat_cluster, flat_rest,
}
use range_vec_kv.Config.Sections.{
  YamlEntry, scalar, not_scalar, Yaml, Reading, Loaded, loaded, yaml_threw, apply_readings,
  nested_server, nested_gateway, nested_ai, nested_search, nested_storage, nested_cluster,
  nested_security, nested_logging,
}

abbrev pub flat_settings : List Setting
flat_settings =
    flat_server ++ flat_ai ++ flat_storage ++ flat_search ++ flat_faiss ++ flat_cluster ++ flat_rest

-- The keys that LoadFromFile reads from a mapping without sections.
abbrev pub yaml_settings : List Setting
yaml_settings = flat_server ++ flat_ai ++ flat_storage ++ flat_search ++ flat_cluster ++ flat_rest

-- LoadFlatConfig(path), of the text of the file
unfoldable pub load_flat_config : (Bytes → Option Bytes) → Bytes → Try ServerConfig
load_flat_config getenv text =
    apply_settings (read_lines getenv (lines text) []) flat_settings default_config

abbrev pub not_raised : Try ServerConfig → Try (StatusOr ServerConfig)
not_raised raised = raised
not_raised (returned c) = returned (value c)

abbrev pub config_not_found : Bytes → Try (StatusOr ServerConfig)
config_not_found path = returned (status (not_found (bytes "config file not found: " ++ path)))

-- LoadFromFile(path) in a build without yaml-cpp
unfoldable pub load_without_yaml :
    (Bytes → Option Bytes) → Bytes → Option Bytes → Try (StatusOr ServerConfig)
load_without_yaml getenv path none = config_not_found path
load_without_yaml getenv path (some text) = not_raised (load_flat_config getenv text)

-- What stands under a key of the file.
pub data YamlNode : Type 0 where
  entry : YamlEntry → YamlNode
  section : Map YamlEntry → YamlNode

-- What YAML::LoadFile makes of a file.
pub data YamlFile : Type 0 where
  yaml_error : Bytes → YamlFile
  not_mapping : YamlFile
  mapping : Map YamlNode → YamlFile

abbrev pub expand_entry : (Bytes → Option Bytes) → YamlEntry → YamlEntry
expand_entry getenv (scalar t) = scalar (expand getenv t)
expand_entry getenv not_scalar = not_scalar

abbrev pub expand_each : (Bytes → Option Bytes) → Bytes × YamlEntry → Bytes × YamlEntry
expand_each getenv (k, e) = (k, expand_entry getenv e)

-- ExpandEnvVarsInNode on a node of the file.
unfoldable pub expand_node : (Bytes → Option Bytes) → Bytes × YamlNode → Bytes × YamlNode
expand_node getenv (k, entry e) = (k, entry (expand_entry getenv e))
expand_node getenv (k, section m) = (k, section (map (expand_each getenv) m))

unfoldable pub has_section : List Bytes → Map YamlNode → Bool
has_section [] root = false
has_section (name ∷ names) root = elim (find name root) [
  | some node ↦ true
  | none ↦ has_section names root
]

-- IsNestedFormat(root)
unfoldable pub is_nested_format : Map YamlNode → Bool
is_nested_format root =
    has_section
      (bytes "server"
        ∷ bytes "gateway"
        ∷ bytes "ai"
        ∷ bytes "search"
        ∷ bytes "storage"
        ∷ bytes "cluster"
        ∷ bytes "security"
        ∷ bytes "logging"
        ∷ [])
      root

-- The loop over the entries of a mapping without sections.
unfoldable pub scalar_values : Map YamlNode → Map Bytes → Map Bytes
scalar_values [] values = values
scalar_values ((k, entry (scalar t)) ∷ rest) values =
    scalar_values rest (insert_or_assign k t values)
scalar_values ((k, entry not_scalar) ∷ rest) values = scalar_values rest values
scalar_values ((k, section m) ∷ rest) values = scalar_values rest values

unfoldable pub load_yaml_flat : Map YamlNode → Try ServerConfig
load_yaml_flat root = apply_settings (scalar_values root []) yaml_settings default_config

-- A section with its keys: whether it is subscripted directly, which throws for a scalar, or only
-- by ReadString, ReadBool and ReadSize, which ask first whether it is a mapping.
abbrev pub Section : Type 0
Section = Bytes × Bool × List Reading

abbrev pub nested_sections : List Section
nested_sections =
    (bytes "server", true, nested_server)
    ∷ (bytes "gateway", true, nested_gateway)
    ∷ (bytes "ai", true, nested_ai)
    ∷ (bytes "search", true, nested_search)
    ∷ (bytes "storage", false, nested_storage)
    ∷ (bytes "cluster", true, nested_cluster)
    ∷ (bytes "security", false, nested_security)
    ∷ (bytes "logging", true, nested_logging)
    ∷ []

abbrev pub yaml_parse_error : Bytes → StatusOr ServerConfig
yaml_parse_error what = status (internal (bytes "YAML parse error: " ++ what))

abbrev pub caught : Loaded → StatusOr ServerConfig
caught (loaded c) = value c
caught (yaml_threw what) = yaml_parse_error what

module _ (yaml : Yaml) where
  -- One `if` of LoadNestedConfig for a section. Null and a sequence have no keys.
  unfoldable pub apply_section :
      Bytes → Bool → List Reading → Option YamlNode → ServerConfig → Loaded
  apply_section name subscripted readings none c = loaded c
  apply_section name subscripted readings (some (section m)) c = apply_readings yaml m readings c
  apply_section name subscripted readings (some (entry not_scalar)) c = loaded c
  apply_section name subscripted readings (some (entry (scalar t))) c =
      if subscripted then yaml_threw (yaml.exception_text name) else loaded c

  unfoldable pub apply_sections : Map YamlNode → List Section → ServerConfig → Loaded
  apply_sections root [] c = loaded c
  apply_sections root ((name, subscripted, readings) ∷ rest) c =
      elim (apply_section name subscripted readings (find name root) c) [
        | yaml_threw what ↦ yaml_threw what
        | loaded d ↦ apply_sections root rest d
      ]

  -- LoadNestedConfig(root)
  unfoldable pub load_nested_config : Map YamlNode → Loaded
  load_nested_config root = apply_sections root nested_sections default_config

  -- LoadFromFile on a mapping, after the expansion.
  unfoldable pub load_mapping : Map YamlNode → Try (StatusOr ServerConfig)
  load_mapping root =
      if is_nested_format root
      then returned (caught (load_nested_config root))
      else not_raised (load_yaml_flat root)

  -- LoadFromFile(path) in a build with yaml-cpp
  unfoldable pub load_with_yaml :
      (Bytes → Option Bytes) → Bytes → Option YamlFile → Try (StatusOr ServerConfig)
  load_with_yaml getenv path none = config_not_found path
  load_with_yaml getenv path (some (yaml_error what)) = returned (yaml_parse_error what)
  load_with_yaml getenv path (some not_mapping) =
      returned (status (invalid_argument (bytes "config file must be a YAML mapping: " ++ path)))
  load_with_yaml getenv path (some (mapping root)) = load_mapping (map (expand_node getenv) root)
