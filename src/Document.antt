-- ===== src/Document.antt =====
-- src/core/document.h and src/core/document.cpp: documents and their composite keys; with the mutation
-- rules of src/core/kv_store.cpp, which both stores share.
pub mod Keys
pub mod Mutation
use range_vec_kv.Base.{ℕ, ◌∷◌, [], ◌++◌}
use range_vec_kv.Base.Bytes.{Bytes}
use range_vec_kv.Base.Int.{ℤ}
use range_vec_kv.OrderedMap.{Map}

pub record DocumentRecord : Type 0 where
  pub collection : Bytes
  pub key : Bytes
  pub title : Bytes
  pub body : Bytes
  pub metadata : Map Bytes
  pub version : ℕ
  pub updated_at_unix_ms : ℤ
  pub mutation_id : Bytes

-- The separator "\x1f".
abbrev pub separator : ℕ
separator = 0x1f

unfoldable pub build_composite_key : Bytes → Bytes → Bytes
build_composite_key collection key = collection ++ separator ∷ key

abbrev pub key_of : DocumentRecord → Bytes
key_of r = build_composite_key r.collection r.key
