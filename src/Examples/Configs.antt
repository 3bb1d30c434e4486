-- ===== src/Examples/Configs.antt =====
-- Configuration files at which the theorem about their bounds is applied.
use range_vec_kv.Base.{◌≡◌, refl, true, Option, none, some, [], ◌∷◌, ◌++◌, if◌then◌else◌}
use range_vec_kv.Base.Bytes.{Bytes, bytes, bytes_eq}
use range_vec_kv.OrderedMap.{Map, find}
use range_vec_kv.Routing.Nodes.{Yields}
use range_vec_kv.Config.{
  Yaml, scalar, YamlNode, section, is_nested_format, has_section, load_without_yaml, load_mapping,
  expand, expand_loop,
}
use range_vec_kv.Config.Keeps.{IsClamped}
use range_vec_kv.Config.Bounds.{IsWithin, load-IsWithin}

abbrev no_yaml : Yaml
no_yaml = record {
  as_unsigned = λ text. some 0;
  as_size = λ text. some 0;
  as_int = λ text. none;
  exception_text = λ text. text;
}

abbrev home : Bytes → Option Bytes
home name = if bytes_eq name (bytes "HOME") then some (bytes "/root") else none

abbrev flat_text : Bytes
flat_text = bytes "server.port: 70000" ++ 10 ∷ bytes "cluster.node_weight: 0 # none"

abbrev sections : Map YamlNode
sections = (bytes "cluster", section ((bytes "slot_count", scalar (bytes "0")) ∷ [])) ∷ []

load-IsWithin_example :
    Yields IsClamped (load_without_yaml home (bytes "f") (some flat_text))
    × Yields (IsWithin true) (load_mapping no_yaml sections)
unfolding is_nested_format has_section find bytes_eq
load-IsWithin_example = load-IsWithin no_yaml home (bytes "f") (some flat_text) sections

-- A name that is not closed is kept; a variable that is not set is nothing.
expand_test : expand home (bytes "${HOME}/x${NO}y${HOME") ≡ bytes "/root/xy${HOME"
unfolding expand expand_loop bytes_eq
expand_test = refl
