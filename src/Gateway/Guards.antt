-- ===== src/Gateway/Guards.antt =====
-- The checks at the top of the gateway's calls, and PrepareMutation.
use range_vec_kv.Base.{
  ℕ, suc, ◌%◌, ◌-◌, ◌^◌, ◌==◌, not, ◌&&◌, Bool, Option, none, some, [], ◌++◌, if◌then◌else◌,
}
use range_vec_kv.Base.Bytes.{Bytes, bytes}
use range_vec_kv.Base.Int.{ℤ, pos, negsuc, is_zero}
use range_vec_kv.Status.{Status, unavailable, invalid_argument}
use range_vec_kv.Document.{DocumentRecord}
use range_vec_kv.Document.Mutation.{is_empty}
use range_vec_kv.Routing.{RouteDecision, route, to_decimal}
use range_vec_kv.Gateway.State.{Backend, GatewayConfig, Gateway, Surroundings}

-- EnsureTraceId(trace_id)
unfoldable pub ensure_trace_id : Surroundings → Bytes → Bytes
ensure_trace_id env trace_id = if is_empty trace_id then env.generated_trace else trace_id

unfoldable pub endpoint_of : RouteDecision → Bytes
endpoint_of d =
    if d.primary.port == 0
    then d.primary.host
    else d.primary.host ++ bytes ":" ++ to_decimal d.primary.port

-- RemoteOwnerMessage(subject, route, trace_id)
unfoldable pub remote_owner_message : Bytes → RouteDecision → Bytes → Bytes
unfolding endpoint_of
remote_owner_message subject d trace_id =
    subject
    ++ bytes " owned by remote node: "
    ++ d.primary.id
    ++ (if is_empty (endpoint_of d) then [] else bytes " endpoint=" ++ endpoint_of d)
    ++ bytes " trace_id="
    ++ trace_id

-- std::to_string of an int64
unfoldable pub signed_decimal : ℤ → Bytes
signed_decimal (pos n) = to_decimal n
signed_decimal (negsuc n) = bytes "-" ++ to_decimal (suc n)

-- static_cast<std::uint64_t> of an int64
unfoldable pub to_uint64 : ℤ → ℕ
to_uint64 (pos n) = n % 2 ^ 64
to_uint64 (negsuc n) = 2 ^ 64 - suc n % 2 ^ 64

-- The record that PrepareMutation(record, node_id) makes, when its counter stands at `count`.
unfoldable pub stamp_time : ℤ → DocumentRecord → DocumentRecord
stamp_time now r = if is_zero r.updated_at_unix_ms then record r { updated_at_unix_ms = now } else r

unfoldable pub stamp_version : DocumentRecord → DocumentRecord
stamp_version r =
    if r.version == 0 then record r { version = to_uint64 r.updated_at_unix_ms } else r

unfoldable pub stamp_mutation : Bytes → ℕ → DocumentRecord → DocumentRecord × ℕ
stamp_mutation node_id count r =
    if is_empty r.mutation_id
    then (
      record r {
        mutation_id =
            node_id
            ++ bytes ":"
            ++ signed_decimal r.updated_at_unix_ms
            ++ bytes ":"
            ++ to_decimal count;
      },
      suc count % 2 ^ 64,
    )
    else (r, count)

-- PrepareMutation(record, node_id)
unfoldable pub prepare_mutation : Bytes → ℤ → ℕ → DocumentRecord → DocumentRecord × ℕ
prepare_mutation node_id now count r =
    stamp_mutation node_id count (stamp_version (stamp_time now r))

unfoldable pub or_default : GatewayConfig → Bytes → Bytes
or_default config collection = if is_empty collection then config.default_collection else collection

abbrev pub in_collection : GatewayConfig → DocumentRecord → DocumentRecord
in_collection config r = record r { collection = or_default config r.collection }

-- The refusals that every write begins with.
unfoldable pub write_refusal : GatewayConfig → Bool → Option Status
write_refusal config started =
    if started
    then (if config.read_only_mode
        then some (unavailable (bytes "storage is in read-only mode"))
        else none)
    else some (unavailable (bytes "server not started"))

unfoldable pub remote_refusal : Bytes → RouteDecision → Bytes → Option Status
remote_refusal subject d trace =
    if d.has_primary && not d.local_owner
    then some (unavailable (remote_owner_message subject d trace))
    else none

module _ {Store World Vector : Type 0} (be : Backend Store World Vector) where
  -- DescribeRoute(collection, key); `none` where Route does not return.
  unfoldable pub describe_route : ℕ → Gateway Store World → Bytes → Bytes → Option RouteDecision
  describe_route fuel g collection key =
      route be.hash fuel g.router (or_default g.config collection) key g.config.replication_factor

  -- The checks on key and owner, with what the two messages call the record.
  unfoldable pub owner_refusal :
      Surroundings
      → Bytes
      → Bytes
      → Bytes
      → Gateway Store World
      → Bytes
      → Bytes
      → Option (Option Status)
  owner_refusal env label subject trace_id g collection key =
      if is_empty key
      then some (some (invalid_argument (label ++ bytes " key cannot be empty")))
      else elim (describe_route env.fuel g collection key) [
        | none ↦ none
        | some d ↦ some (remote_refusal subject d (ensure_trace_id env trace_id))
      ]
