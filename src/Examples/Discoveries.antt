-- ===== src/Examples/Discoveries.antt =====
-- A session of the etcd discovery at which its theorems are applied.
use range_vec_kv.Base.{◌≡◌, refl, true, not, ◌&&◌, none, some, List, [], ◌∷◌, arith}
use range_vec_kv.Base.Bytes.{bytes, bytes_lt}
use range_vec_kv.Base.Int.{ℤ}
use range_vec_kv.Codec.{has_prefix}
use range_vec_kv.Etcd.{
  Json, prefix_range_end, new_discovery, accepted, refused, waited, Listing, StartAnswers,
}
use range_vec_kv.Etcd.Prefixes.{is_highest, prefix_range_end-has_prefix}
use range_vec_kv.Etcd.Consistent.{IsConsistent}
use range_vec_kv.Etcd.Events.{
  EtcdEvent, start_called, stop_called, round_begun, round_ended, watched, keepalive_error,
  after_all, after_all-IsConsistent,
}
use range_vec_kv.Examples.Routes.{spread, east, small}

-- A library that finds no object in any text.
abbrev no_json : Json
no_json = record {
  parse = λ text. none;
  dump = λ fields. [];
  type_error = λ field. [];
  stoul_error = λ text. text;
}

abbrev two_nodes : Listing
two_nodes = accepted (
    (bytes "/n/n1", bytes "10.0.0.1:8080")
    ∷ (bytes "/n/n2", bytes "10.0.0.2:0")
    ∷ (bytes "/n/n3", bytes "10.0.0.3:8081")
    ∷ [])

abbrev good_answers : StartAnswers
good_answers = record {
  connect = none;
  lease = accepted (ℤ.pos 5);
  registered = none;
  listing = two_nodes;
}

abbrev busy : List EtcdEvent
busy =
    start_called 1 good_answers (some small)
    ∷ round_begun 2 two_nodes
    ∷ watched 3 (accepted (refused (bytes "late")))
    ∷ keepalive_error (bytes "gone")
    ∷ round_ended (waited true)
    ∷ round_begun 4 two_nodes
    ∷ stop_called
    ∷ []

after_all-IsConsistent_example :
    IsConsistent (after_all no_json spread busy (new_discovery (bytes "/n/") east))
after_all-IsConsistent_example = after_all-IsConsistent no_json spread (bytes "/n/") east busy

prefix_range_end-has_prefix_example : has_prefix (97 ∷ 255 ∷ []) (97 ∷ 255 ∷ 3 ∷ []) ≡ (
    not (bytes_lt (97 ∷ 255 ∷ 3 ∷ []) (97 ∷ 255 ∷ []))
    && bytes_lt (97 ∷ 255 ∷ 3 ∷ []) (prefix_range_end (97 ∷ 255 ∷ [])))
unfolding is_highest
prefix_range_end-has_prefix_example =
    prefix_range_end-has_prefix (97 ∷ 255 ∷ []) (97 ∷ 255 ∷ 3 ∷ []) (omega arith, (omega arith, tt))
      (omega arith, (omega arith, (omega arith, tt))) refl
