-- ===== src/Config/Yaml/Laws.antt =====
-- What the merged YAML and the overrides of the program hold, key by key.
use k8ssandra_client.Common.{
  String, ◌≡◌, refl, ◌∙◌, ap, ◌||◌, Option, none, some, [], ◌∷◌, Dict, lookup, lookup-insert,
  lookup-delete, HasUniqueKeys, Result, ok, bind-eq-ok, ◌==◌, arith, eq_iff, if◌then◌else◌,
}
use k8ssandra_client.Config.Types.{
  Value, null, bool, str, address, or_nil, ConfigInput, NodeInfo, ip_text,
}
use k8ssandra_client.Config.Yaml.{
  keep_explicit, keep_all_explicit, merge_yaml, seed_provider, is_text, is_true, set_rpc_address,
  set_location, address_overrides, k8ssandra_overrides,
}

-- The value of a key after the merge: a boolean or a nil of the higher map, else goalesce's.
abbrev pub explicit : Option Value → Option Value → Option Value
explicit (some (bool b)) o = some (bool b)
explicit (some null) o = some null
explicit _ o = o

lookup-keep_explicit :
    (k j : String) (v : Value) (merged : Dict Value)
    → lookup k (keep_explicit j v merged)
      ≡ (if j == k then explicit (some v) (lookup k merged) else lookup k merged)
lookup-keep_explicit k j (bool b) merged = lookup-insert j k (bool b) merged
lookup-keep_explicit k j null merged = lookup-insert j k null merged
lookup-keep_explicit k j _ merged = ground arith

lookup-keep_all_explicit :
    (k : String) (higher merged : Dict Value)
    → HasUniqueKeys higher
    → lookup k (keep_all_explicit higher merged) ≡ explicit (lookup k higher) (lookup k merged)
unfolding keep_all_explicit lookup
lookup-keep_all_explicit k [] merged h = refl
lookup-keep_all_explicit k ((j, v) ∷ higher) merged (u, h) = ground (
  arith,
  lookup-keep_all_explicit k higher (keep_explicit j v merged) h,
  lookup-keep_explicit k j v merged,
  eq_iff j k,
  u,
)

-- Where the YAML of two maps is merged, the higher one with each key once, every key of the result
-- has the value that goalesce gave it, but a boolean or a nil of the higher map stands.
pub lookup-merge_yaml :
    (deep_merge : Dict Value → Dict Value → Result (Dict Value))
    (lower higher merged r : Dict Value)
    → HasUniqueKeys higher
    → deep_merge lower higher ≡ ok merged
    → merge_yaml deep_merge lower higher ≡ ok r
    → (k : String) → lookup k r ≡ explicit (lookup k higher) (lookup k merged)
unfolding merge_yaml
lookup-merge_yaml deep_merge lower higher merged r unique m e k =
    ground (arith, lookup-keep_all_explicit k higher merged unique)

abbrev located : Option Value → String → Option Value → Option Value
located none k o = if "endpoint_snitch" == k then some (str "GossipingPropertyFileSnitch") else o
located (some (str s)) k o =
    if s == "NetworkTopologyProximity"
    then (if "initial_location_provider" == k then some (str "RackDCFileLocationProvider") else o)
    else o
located (some _) k o = o

lookup-set_location :
    (proximity : Option Value) (m r : Dict Value) (k : String)
    → set_location proximity m ≡ ok r
    → lookup k r ≡ located proximity k (lookup k m)
lookup-set_location none m r k h =
    ground (arith, lookup-insert "endpoint_snitch" k (str "GossipingPropertyFileSnitch") m)
lookup-set_location (some (str s)) m r k h =
    ground (arith, lookup-insert "initial_location_provider" k (str "RackDCFileLocationProvider") m)
lookup-set_location (some _) m r k h = ground arith

abbrev rpc_value : NodeInfo → Option Value → Option Value → Option Value
rpc_value node prefer rpc =
    if is_text "" (or_nil rpc) || is_text "localhost" (or_nil rpc)
    then some (if is_true (or_nil prefer) then str "::" else str (ip_text node.rpc_ip))
    else rpc

-- The value of each key after the addresses are set, from the values before.
abbrev pub address_of : ConfigInput → NodeInfo → (String → Option Value) → String → Option Value
address_of input node before k =
    if "broadcast_rpc_address" == k
    then some (address node.broadcast_ip)
    else if "broadcast_address" == k
    then none
    else if "rpc_address" == k
    then rpc_value node (before "rpc_interface_prefer_ipv6") (before "rpc_address")
    else if "listen_address" == k
    then some (str (ip_text node.listen_ip))
    else if "seed_provider" == k
    then some (seed_provider input.cluster_info.seeds)
    else before k

-- The value of each key after k8ssandraOverrides, from the values before it.
abbrev pub override_of : ConfigInput → NodeInfo → (String → Option Value) → String → Option Value
override_of input node before k =
    if "cluster_name" == k
    then some (str input.cluster_info.name)
    else located (before "node_proximity") k (address_of input node before k)

lookup-set_rpc_address :
    (node : NodeInfo) (m : Dict Value) (k : String)
    → lookup k (set_rpc_address node m) ≡ (
        if "rpc_address" == k
        then rpc_value node (lookup "rpc_interface_prefer_ipv6" m) (lookup "rpc_address" m)
        else lookup k m)
unfolding set_rpc_address
lookup-set_rpc_address node m k = ground (
  arith,
  eq_iff "rpc_address" k,
  lookup-insert "rpc_address" k
      (if is_true (or_nil (lookup "rpc_interface_prefer_ipv6" m))
        then str "::"
        else str (ip_text node.rpc_ip))
      m,
)

lookup-address_overrides :
    (input : ConfigInput) (node : NodeInfo) (merged : Dict Value) (k : String)
    → lookup k (address_overrides merged input node)
      ≡ address_of input node (λ j. lookup j merged) k
unfolding address_overrides
lookup-address_overrides input node merged k =
    simp (lookup-insert, lookup-delete, lookup-set_rpc_address)

ok_lookup : (k : String) (a b : Dict Value) → ok a ≡ ok b → lookup k b ≡ lookup k a
ok_lookup k a b h = ground (arith, h)

-- Where k8ssandraOverrides returns, every key of the document has the value that a key by key
-- description names: the addresses, seed provider, cluster name, snitch or location provider of
-- the program, and all other keys unchanged.
pub lookup-k8ssandra_overrides :
    (input : ConfigInput) (node : NodeInfo) (merged r : Dict Value)
    → k8ssandra_overrides merged input node ≡ ok r
    → (k : String) → lookup k r ≡ override_of input node (λ j. lookup j merged) k
unfolding k8ssandra_overrides
lookup-k8ssandra_overrides input node merged r done k =
    let announced = address_overrides merged input node in
    let (m, moved, same) =
      bind-eq-ok (set_location (lookup "node_proximity" announced) announced) _ done in
    let proximity : lookup "node_proximity" announced ≡ lookup "node_proximity" merged =
      lookup-address_overrides input node merged "node_proximity" in
    let at : lookup k m ≡ located (lookup "node_proximity" announced) k (lookup k announced) =
      lookup-set_location _ announced m k moved in
    ok_lookup k _ r same
    ∙ lookup-insert "cluster_name" k (str input.cluster_info.name) m
    ∙ ap (λ x. if "cluster_name" == k then some (str input.cluster_info.name) else x)
        (at
          ∙ ap (λ p. located p k (lookup k announced)) proximity
          ∙ ap (located (lookup "node_proximity" merged) k)
              (lookup-address_overrides input node merged k))
