-- ===== src/WalStore/State.antt =====
-- The state of WriteAheadKvStore, and the helpers of src/core/kv_store.cpp that look at its files.
use range_vec_kv.Base.{Bool, true, false, not, ◌&&◌, Option, none, some, [], ◌++◌, if◌then◌else◌}
use range_vec_kv.Base.Bytes.{Bytes, bytes}
use range_vec_kv.OrderedMap.{Map}
use range_vec_kv.Status.{Status, ok_status, internal}
use range_vec_kv.Document.{DocumentRecord}
use range_vec_kv.Document.Mutation.{is_empty}
use range_vec_kv.Codec.{magic_header, has_prefix}

-- `parent_error` is the message of a failed create_directories, `can_open` whether the
-- stream opens for writing and `can_read` whether it opens for reading.
pub record Io : Type 0 where
  pub parent_error : Option Bytes
  pub can_open : Bool
  pub can_read : Bool

pub record Disk : Type 0 where
  pub wal : Option Bytes
  pub snapshot : Option Bytes

pub record WalStore : Type 0 where
  pub records : Map DocumentRecord
  pub disk : Disk

abbrev pub init : Disk → WalStore
init d = record { records = []; disk = d }

unfoldable pub has_persistence_magic : Bytes → Bool
has_persistence_magic text = has_prefix magic_header text

-- `!exists(path) || file_size(path) == 0`
unfoldable pub is_missing_or_empty : Option Bytes → Bool
is_missing_or_empty none = true
is_missing_or_empty (some text) = is_empty text

-- A log that is not empty and has no magic header.
unfoldable pub should_rewrite_legacy_wal : Io → Option Bytes → Bool
should_rewrite_legacy_wal io none = false
should_rewrite_legacy_wal io (some text) =
    if is_empty text then false else io.can_read && not (has_persistence_magic text)

unfoldable pub ensure_parent_directory : Io → Status
ensure_parent_directory io = elim io.parent_error [
  | none ↦ ok_status
  | some e ↦ internal (bytes "failed to create parent directory: " ++ e)
]

abbrev pub contents : Option Bytes → Bytes
contents none = []
contents (some text) = text
