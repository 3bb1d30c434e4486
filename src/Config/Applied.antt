-- ===== src/Config/Applied.antt =====
-- The readers of src/infra/config.cpp keep what each of their settings keeps.
use range_vec_kv.Base.{ℕ, Bool, true, false, Option, none, some, List, [], ◌∷◌, All}
use range_vec_kv.Base.Bytes.{Bytes}
use range_vec_kv.Base.Int.{ℤ}
use range_vec_kv.OrderedMap.{Map, find}
use range_vec_kv.Status.{Try, returned, raised}
use range_vec_kv.Legacy.{stoull}
use range_vec_kv.Config.State.{ServerConfig}
use range_vec_kv.Config.Settings.{
  Setting, text_setting, number_setting, integer_setting, stoi, apply_setting, apply_settings,
}
use range_vec_kv.Config.Sections.{
  YamlEntry, scalar, not_scalar, Yaml, Reading, convert, read_scalar, read_text, read_unsigned,
  read_size, read_int, Loaded, loaded, yaml_threw, apply_reading, apply_readings,
}
use range_vec_kv.Config.Load.{YamlNode, entry, section, Section, apply_section, apply_sections}
use range_vec_kv.Config.Keeps.{IsSane, Keeps, KeepsSane}

-- A configuration that is returned satisfies `P`.
abbrev pub Gives : (ServerConfig → Type 0) → Try ServerConfig → Type 0
Gives P raised = Unit
Gives P (returned c) = P c

abbrev pub Loads : (ServerConfig → Type 0) → Loaded → Type 0
Loads P (yaml_threw what) = Unit
Loads P (loaded c) = P c

module _ (P : ServerConfig → Type 0) (values : Map Bytes) where
  apply_setting-Gives :
      (s : Setting) (c : ServerConfig) → Keeps P s → P c → Gives P (apply_setting values s c)
  unfolding apply_setting
  apply_setting-Gives (text_setting key f) c k h = by_text (find key values)
    where
      by_text :
          (o : Option Bytes)
          → Gives P
              (elim o as (λ a. Try ServerConfig) [ none ↦ returned c | some t ↦ returned (f t c) ])
      by_text none = h
      by_text (some t) = k t c h
  apply_setting-Gives (number_setting key f) c k h = by_text (find key values)
    where
      by_number :
          (x : Try ℕ)
          → Gives P (elim x as (λ a. Try ServerConfig) [
            | raised ↦ raised
            | returned n ↦ returned (f n c)
          ])
      by_number raised = tt
      by_number (returned n) = k n c h

      by_text :
          (o : Option Bytes)
          → Gives P (elim o as (λ a. Try ServerConfig) [
            | none ↦ returned c
            | some t ↦ elim (stoull t) as (λ a. Try ServerConfig) [
              | raised ↦ raised
              | returned n ↦ returned (f n c)
            ]
          ])
      by_text none = h
      by_text (some t) = by_number (stoull t)
  apply_setting-Gives (integer_setting key f) c k h = by_text (find key values)
    where
      by_integer :
          (x : Try ℤ)
          → Gives P (elim x as (λ a. Try ServerConfig) [
            | raised ↦ raised
            | returned z ↦ returned (f z c)
          ])
      by_integer raised = tt
      by_integer (returned z) = k z c h

      by_text :
          (o : Option Bytes)
          → Gives P (elim o as (λ a. Try ServerConfig) [
            | none ↦ returned c
            | some t ↦ elim (stoi t) as (λ a. Try ServerConfig) [
              | raised ↦ raised
              | returned z ↦ returned (f z c)
            ]
          ])
      by_text none = h
      by_text (some t) = by_integer (stoi t)

  pub apply_settings-Gives :
      (settings : List Setting) (c : ServerConfig)
      → All (Keeps P) settings
      → P c
      → Gives P (apply_settings values settings c)
  unfolding apply_settings
  apply_settings-Gives [] c k h = h
  apply_settings-Gives (s ∷ settings) c k h =
      goes_on (apply_setting values s c) (apply_setting-Gives s c k.0 h)
        (λ d g. apply_settings-Gives settings d k.1 g)
    where
      goes_on :
          (x : Try ServerConfig)
          → Gives P x
          → ((d : ServerConfig) → P d → Gives P (apply_settings values settings d))
          → Gives P (elim x as (λ a. Try ServerConfig) [
            | raised ↦ raised
            | returned d ↦ apply_settings values settings d
          ])
      goes_on raised g rec = tt
      goes_on (returned d) g rec = rec d g

convert-Loads :
    {A : Type 0} (as_type : Bytes → Option A) (what : Bytes → Bytes) (key : Bytes)
    (o : Option YamlEntry) (f : A → ServerConfig → ServerConfig) (c : ServerConfig)
    → ((x : A) (d : ServerConfig) → IsSane d → IsSane (f x d))
    → IsSane c
    → Loads IsSane (convert as_type what key o f c)
convert-Loads as_type what key none f c k h = h
convert-Loads as_type what key (some not_scalar) f c k h = tt
convert-Loads {A} as_type what key (some (scalar t)) f c k h = by_value (as_type t)
  where
    by_value :
        (o : Option A)
        → Loads IsSane
            (elim o as (λ a. Loaded) [ none ↦ yaml_threw (what key) | some x ↦ loaded (f x c) ])
    by_value none = tt
    by_value (some x) = k x c h

module _ (yaml : Yaml) where
  apply_reading-Loads :
      (node : Map YamlEntry) (r : Reading) (c : ServerConfig)
      → KeepsSane r
      → IsSane c
      → Loads IsSane (apply_reading yaml node r c)
  unfolding apply_reading
  apply_reading-Loads node (read_text key f) c k h = by_entry (find key node)
    where
      by_entry : (o : Option YamlEntry) → IsSane (read_scalar o f c)
      by_entry none = h
      by_entry (some not_scalar) = h
      by_entry (some (scalar t)) = k t c h
  apply_reading-Loads node (read_unsigned key f) c k h =
      convert-Loads yaml.as_unsigned yaml.exception_text key (find key node) f c k h
  apply_reading-Loads node (read_size key f) c k h =
      convert-Loads yaml.as_size yaml.exception_text key (find key node) f c k h
  apply_reading-Loads node (read_int key f) c k h =
      convert-Loads yaml.as_int yaml.exception_text key (find key node) f c k h

  apply_readings-Loads :
      (node : Map YamlEntry) (readings : List Reading) (c : ServerConfig)
      → All KeepsSane readings
      → IsSane c
      → Loads IsSane (apply_readings yaml node readings c)
  unfolding apply_readings
  apply_readings-Loads node [] c k h = h
  apply_readings-Loads node (r ∷ readings) c k h =
      goes_on (apply_reading yaml node r c) (apply_reading-Loads node r c k.0 h)
        (λ d g. apply_readings-Loads node readings d k.1 g)
    where
      goes_on :
          (x : Loaded)
          → Loads IsSane x
          → ((d : ServerConfig) → IsSane d → Loads IsSane (apply_readings yaml node readings d))
          → Loads IsSane (elim x as (λ a. Loaded) [
            | yaml_threw what ↦ yaml_threw what
            | loaded d ↦ apply_readings yaml node readings d
          ])
      goes_on (yaml_threw what) g rec = tt
      goes_on (loaded d) g rec = rec d g

  apply_section-Loads :
      (name : Bytes) (subscripted : Bool) (readings : List Reading) (o : Option YamlNode)
      (c : ServerConfig)
      → All KeepsSane readings
      → IsSane c
      → Loads IsSane (apply_section yaml name subscripted readings o c)
  unfolding apply_section
  apply_section-Loads name subscripted readings none c k h = h
  apply_section-Loads name subscripted readings (some (section m)) c k h =
      apply_readings-Loads m readings c k h
  apply_section-Loads name subscripted readings (some (entry not_scalar)) c k h = h
  apply_section-Loads name true readings (some (entry (scalar t))) c k h = tt
  apply_section-Loads name false readings (some (entry (scalar t))) c k h = h

  pub apply_sections-Loads :
      (root : Map YamlNode) (sections : List Section) (c : ServerConfig)
      → All (λ s. All KeepsSane s.2) sections
      → IsSane c
      → Loads IsSane (apply_sections yaml root sections c)
  unfolding apply_sections
  apply_sections-Loads root [] c k h = h
  apply_sections-Loads root ((name, subscripted, readings) ∷ sections) c k h =
      goes_on (apply_section yaml name subscripted readings (find name root) c)
        (apply_section-Loads name subscripted readings (find name root) c k.0 h)
        (λ d g. apply_sections-Loads root sections d k.1 g)
    where
      goes_on :
          (x : Loaded)
          → Loads IsSane x
          → ((d : ServerConfig) → IsSane d → Loads IsSane (apply_sections yaml root sections d))
          → Loads IsSane (elim x as (λ a. Loaded) [
            | yaml_threw what ↦ yaml_threw what
            | loaded d ↦ apply_sections yaml root sections d
          ])
      goes_on (yaml_threw what) g rec = tt
      goes_on (loaded d) g rec = rec d g
