-- ===== src/Routing/Nodes.antt =====
-- src/infra/cluster_routing.cpp, ParseStaticClusterNodes: "id@host:port" entries between commas. Trim
-- is the function of src/gateway/auth.cpp.
use range_vec_kv.Base.{
  ℕ, suc, ◌≡◌, ◌≢◌, ◌<◌, ◌+◌, ◌-◌, ◌%◌, ◌^◌, ◌==◌, ◌||◌, leb, refl, true, false, Option, none, some,
  List, [], ◌∷◌, ◌++◌, if◌then◌else◌, take, drop, All, All-append, arith, Bool-cases, inl, inr,
}
use range_vec_kv.Base.Bytes.{Bytes, bytes}
use range_vec_kv.Status.{StatusOr, value, status, invalid_argument, Try, returned, raised}
use range_vec_kv.Document.Mutation.{is_empty}
use range_vec_kv.Legacy.{stoull}
use range_vec_kv.Auth.{trim}
use range_vec_kv.Routing.{ClusterNode, no_node}

-- What a loop of std::getline with this delimiter reads: there is no empty text behind a delimiter at
-- the end.
unfoldable pub tokens_loop : ℕ → Bytes → Bytes → List Bytes
tokens_loop delimiter [] [] = []
tokens_loop delimiter (c ∷ current) [] = (c ∷ current) ∷ []
tokens_loop delimiter current (b ∷ rest) =
    let cut = current ∷ tokens_loop delimiter [] rest in
    let keep = tokens_loop delimiter (current ++ b ∷ []) rest in
    if b == delimiter then cut else keep

-- token.find(ch)
unfoldable pub find_first : ℕ → Bytes → Option ℕ
find_first ch [] = none
find_first ch (b ∷ rest) =
    if b == ch then some 0 else elim (find_first ch rest) [ none ↦ none | some i ↦ some (suc i) ]

-- token.rfind(ch)
unfoldable pub find_last : ℕ → Bytes → Option ℕ
find_last ch [] = none
find_last ch (b ∷ rest) = elim (find_last ch rest) [
  | some i ↦ some (suc i)
  | none ↦ if b == ch then some 0 else none
]

abbrev pub invalid_entry : Bytes → Try (StatusOr ClusterNode)
invalid_entry token =
    returned (status (invalid_argument (bytes "invalid cluster node entry: " ++ token)))

-- The node of an entry, and the check of its parts. The port is cut to 16 bits.
unfoldable pub checked_node : Bytes → ClusterNode → Try (StatusOr ClusterNode)
checked_node token n =
    if is_empty n.id || is_empty n.host || n.port == 0
    then invalid_entry token
    else returned (value n)

-- std::stoul reads as std::stoull does where unsigned long has 64 bits.
unfoldable pub node_with_port : Bytes → Bytes → Bytes → Try ℕ → Try (StatusOr ClusterNode)
node_with_port token id host raised = raised
node_with_port token id host (returned n) =
    checked_node token (record no_node { id = id; host = host; port = n % 2 ^ 16 })

-- The body of the loop for an entry that is not empty.
unfoldable pub parse_node : Bytes → Try (StatusOr ClusterNode)
parse_node token = elim (find_first b'@' token) [
  | none ↦ invalid_entry token
  | some at_pos ↦ elim (find_last b':' token) [
    | none ↦ invalid_entry token
    | some colon_pos ↦
        if leb colon_pos (at_pos + 1)
        then invalid_entry token
        else node_with_port token (take at_pos token)
            (take (colon_pos - at_pos - 1) (drop (at_pos + 1) token))
            (stoull (drop (colon_pos + 1) token))
  ]
]

unfoldable pub parse_loop : List ClusterNode → List Bytes → Try (StatusOr (List ClusterNode))
parse_loop nodes [] = returned (value nodes)
parse_loop nodes (text ∷ rest) = elim (is_empty (trim text)) [
  | true ↦ parse_loop nodes rest
  | false ↦ elim (parse_node (trim text)) [
    | raised ↦ raised
    | returned (status st) ↦ returned (status st)
    | returned (value n) ↦ parse_loop (nodes ++ n ∷ []) rest
  ]
]

-- The end of ParseStaticClusterNodes.
unfoldable pub some_nodes : Try (StatusOr (List ClusterNode)) → Try (StatusOr (List ClusterNode))
some_nodes raised = raised
some_nodes (returned (status st)) = returned (status st)
some_nodes (returned (value [])) =
    returned (status (invalid_argument (bytes "cluster.nodes cannot be empty")))
some_nodes (returned (value (n ∷ nodes))) = returned (value (n ∷ nodes))

-- ParseStaticClusterNodes(encoded)
unfoldable pub parse_static_cluster_nodes : Bytes → Try (StatusOr (List ClusterNode))
parse_static_cluster_nodes encoded = some_nodes (parse_loop [] (tokens_loop b',' [] encoded))

-- A node that a request can be sent to.
pub record IsUsable (n : ClusterNode) : Type 0 where
  pub named : is_empty n.id ≡ false
  pub hosted : is_empty n.host ≡ false
  pub port_set : n.port ≢ 0
  pub port_fits : n.port < 2 ^ 16

-- A value that is returned satisfies `P`; an error or an exception satisfies it in any case.
abbrev pub Yields {ℓ κ} : {A : Type ℓ} → (A → Type κ) → Try (StatusOr A) → Type κ
Yields P raised = Unit
Yields P (returned (status st)) = Unit
Yields P (returned (value x)) = P x

checked_node-Yields :
    (token : Bytes) (n : ClusterNode) → n.port < 2 ^ 16 → Yields IsUsable (checked_node token n)
unfolding checked_node
checked_node-Yields token n h =
    elim (Bool-cases (is_empty n.id || is_empty n.host || n.port == 0)) [
      | inl e ↦ rw e tt
      | inr e ↦ rw e (usable e)
    ]
  where
    usable : (is_empty n.id || is_empty n.host || n.port == 0) ≡ false → IsUsable n
    usable e = record {
      named = ground arith;
      hosted = ground arith;
      port_set = ground arith;
      port_fits = h;
    }

node_with_port-Yields :
    (token id host : Bytes) (port : Try ℕ) → Yields IsUsable (node_with_port token id host port)
unfolding node_with_port
node_with_port-Yields token id host raised = tt
node_with_port-Yields token id host (returned n) = checked_node-Yields token _ (omega arith)

parse_node-Yields : (token : Bytes) → Yields IsUsable (parse_node token)
unfolding parse_node
parse_node-Yields token = by_at (find_first b'@' token)
  where
    by_colon :
        (a : ℕ) (x : Option ℕ)
        → Yields IsUsable (elim x as (λ y. Try (StatusOr ClusterNode)) [
          | none ↦ invalid_entry token
          | some c ↦
              if leb c (a + 1)
              then invalid_entry token
              else node_with_port token
                  (take a token)
                  (take (c - a - 1) (drop (a + 1) token))
                  (stoull (drop (c + 1) token))
        ])
    by_colon a none = tt
    by_colon a (some c) = elim (Bool-cases (leb c (a + 1))) [
      | inl e ↦ rw e tt
      | inr e ↦ rw e (node_with_port-Yields token _ _ (stoull (drop (c + 1) token)))
    ]

    by_at :
        (x : Option ℕ)
        → Yields IsUsable (elim x as (λ y. Try (StatusOr ClusterNode)) [
          | none ↦ invalid_entry token
          | some a ↦ elim (find_last b':' token) as (λ y. Try (StatusOr ClusterNode)) [
            | none ↦ invalid_entry token
            | some c ↦
                if leb c (a + 1)
                then invalid_entry token
                else node_with_port token
                    (take a token)
                    (take (c - a - 1) (drop (a + 1) token))
                    (stoull (drop (c + 1) token))
          ]
        ])
    by_at none = tt
    by_at (some a) = by_colon a (find_last b':' token)

parse_loop-Yields :
    (nodes : List ClusterNode) (texts : List Bytes)
    → All IsUsable nodes
    → Yields (All IsUsable) (parse_loop nodes texts)
unfolding parse_loop
parse_loop-Yields nodes [] h = h
parse_loop-Yields nodes (text ∷ rest) h = elim (Bool-cases (is_empty (trim text))) [
  | inl e ↦ rw (e, parse_loop) (parse_loop-Yields nodes rest h)
  | inr e ↦
      rw (e, parse_loop)
        (goes_on (parse_node (trim text)) (parse_node-Yields (trim text)) (λ n u.
          parse_loop-Yields (nodes ++ n ∷ []) rest (All-append IsUsable nodes (n ∷ []) h (u, tt))))
]
  where
    goes_on :
        (x : Try (StatusOr ClusterNode))
        → Yields IsUsable x
        → ((n : ClusterNode)
            → IsUsable n
            → Yields (All IsUsable) (parse_loop (nodes ++ n ∷ []) rest))
        → Yields (All IsUsable) (elim x as (λ y. Try (StatusOr (List ClusterNode))) [
          | raised ↦ raised
          | returned (status st) ↦ returned (status st)
          | returned (value n) ↦ parse_loop (nodes ++ n ∷ []) rest
        ])
    goes_on raised u rec = tt
    goes_on (returned (status st)) u rec = tt
    goes_on (returned (value n)) u rec = rec n u

-- A list that ParseStaticClusterNodes returns is not empty, and each of its nodes has an id, a host
-- and a port other than zero that fits 16 bits.
pub parse_static_cluster_nodes-Yields :
    (encoded : Bytes)
    → Yields
        (λ nodes. (is_empty nodes ≡ false) × All IsUsable nodes)
        (parse_static_cluster_nodes encoded)
unfolding parse_static_cluster_nodes some_nodes
parse_static_cluster_nodes-Yields encoded =
    checked (parse_loop [] (tokens_loop b',' [] encoded))
      (parse_loop-Yields [] (tokens_loop b',' [] encoded) tt)
  where
    checked :
        (x : Try (StatusOr (List ClusterNode)))
        → Yields (All IsUsable) x
        → Yields (λ nodes. (is_empty nodes ≡ false) × All IsUsable nodes) (some_nodes x)
    checked raised u = tt
    checked (returned (status st)) u = tt
    checked (returned (value [])) u = tt
    checked (returned (value (n ∷ nodes))) u = (refl, u)
