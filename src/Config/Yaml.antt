-- ===== src/Config/Yaml.antt =====
-- mergeYaml, k8ssandraOverrides and sidecarK8ssandraOverrides of pkg/config/builder.go.
pub mod Laws
pub mod Sections
pub mod Sidecar
use k8ssandra_client.Common.{
  String, Bool, true, false, ◌||◌, Option, none, some, List, [], ◌∷◌, Dict, lookup, insert, delete,
  Result, ok, err, panic, message, ◌>>=◌, ◌==◌, concat, if◌then◌else◌,
}
use k8ssandra_client.Config.Types.{
  Value, null, bool, int, str, address, list, object, to_values, to_fields, as_list, as_object,
  or_nil, ConfigInput, NodeInfo, ip_text,
}

-- One round of the loop over higherPriority: false and nil are kept although goalesce takes them
-- for missing.
abbrev pub keep_explicit : String → Value → Dict Value → Dict Value
keep_explicit k (bool b) merged = insert k (bool b) merged
keep_explicit k null merged = insert k null merged
keep_explicit k _ merged = merged

unfoldable pub keep_all_explicit : Dict Value → Dict Value → Dict Value
keep_all_explicit [] merged = merged
keep_all_explicit ((k, v) ∷ higher) merged = keep_all_explicit higher (keep_explicit k v merged)

-- `deep_merge` is goalesce.DeepMerge.
unfoldable pub merge_yaml :
    (Dict Value → Dict Value → Result (Dict Value)) → Dict Value → Dict Value → Result (Dict Value)
unfolding keep_all_explicit
merge_yaml deep_merge lower higher = do
  merged ← deep_merge lower higher
  ok (keep_all_explicit higher merged)

abbrev one_field : String → Value → Value
one_field k v = object (to_fields ((k, v) ∷ []))

abbrev pub seed_provider : String → Value
seed_provider seeds = list (
    to_values (
      object (
        to_fields (
          ("class_name", str "org.apache.cassandra.locator.K8SeedProvider")
          ∷ ("parameters", list (to_values (one_field "seeds" (str seeds) ∷ [])))
          ∷ []))
      ∷ []))

-- The comparison of a value of type `any` with a text.
abbrev is_text : String → Value → Bool
is_text s (str t) = t == s
is_text s _ = false

abbrev is_true : Value → Bool
is_true (bool b) = b
is_true _ = false

unfoldable pub set_rpc_address : NodeInfo → Dict Value → Dict Value
set_rpc_address node merged =
    let rpc = or_nil (lookup "rpc_address" merged) in
    if is_text "" rpc || is_text "localhost" rpc
    then insert "rpc_address"
        (if is_true (or_nil (lookup "rpc_interface_prefer_ipv6" merged))
          then str "::"
          else str (ip_text node.rpc_ip))
        merged
    else merged

-- A node_proximity that is no text panics.
abbrev set_location : Option Value → Dict Value → Result (Dict Value)
set_location none merged = ok (insert "endpoint_snitch" (str "GossipingPropertyFileSnitch") merged)
set_location (some (str s)) merged = ok (
    if s == "NetworkTopologyProximity"
    then insert "initial_location_provider" (str "RackDCFileLocationProvider") merged
    else merged)
set_location (some _) merged = panic

-- The part of k8ssandraOverrides before node_proximity is read.
unfoldable pub address_overrides : Dict Value → ConfigInput → NodeInfo → Dict Value
address_overrides merged input node =
    let seeded = insert "seed_provider" (seed_provider input.cluster_info.seeds) merged in
    let listening = insert "listen_address" (str (ip_text node.listen_ip)) seeded in
    insert "broadcast_rpc_address" (address node.broadcast_ip)
      (delete "broadcast_address" (set_rpc_address node listening))

unfoldable pub k8ssandra_overrides : Dict Value → ConfigInput → NodeInfo → Result (Dict Value)
unfolding address_overrides set_rpc_address
k8ssandra_overrides merged input node = do
  let announced = address_overrides merged input node
  located ← set_location (lookup "node_proximity" announced) announced
  ok (insert "cluster_name" (str input.cluster_info.name) located)

-- m[key].(map[string]any), changed in place by `f`.
unfoldable pub within :
    String → (Dict Value → Result (Dict Value)) → Dict Value → Result (Dict Value)
within key f m = do
  sub ← as_object (or_nil (lookup key m))
  sub' ← f sub
  ok (insert key (object (to_fields sub')) m)

abbrev set_field : String → Value → Dict Value → Result (Dict Value)
set_field k v m = ok (insert k v m)

-- instances[0].(map[string]any) with its fields set.
unfoldable pub set_first_instance : String → List Value → Result (List Value)
set_first_instance pod_ip [] = panic
set_first_instance pod_ip (first ∷ rest) = do
  instance' ← as_object first
  let placed = insert "port" (int 9042) (insert "host" (str pod_ip) (insert "id" (int 1) instance'))
  ok (object (to_fields placed) ∷ rest)

-- The last three assignments of sidecarK8ssandraOverrides.
unfoldable pub disable_flags : Dict Value → Result (Dict Value)
disable_flags m = do
  m1 ← within "cluster_topology_monitor" (set_field "enabled" (bool false)) m
  m2 ← within "sidecar_peer_health" (set_field "enabled" (bool false)) m1
  within "schema_reporting" (set_field "enabled" (bool false)) m2

-- The assignments from merged["metrics"] on.
unfoldable pub set_sections : String → Dict Value → Result (Dict Value)
set_sections pod_ip m = do
  m1 ← within "metrics" (within "vertx" (set_field "enabled" (bool false))) m
  m2 ←
      within "driver_parameters"
        (set_field "contact_points" (list (to_values (str (concat (pod_ip ∷ ":9042" ∷ [])) ∷ []))))
        m1
  disable_flags m2

-- The body of sidecarK8ssandraOverrides, before its recover.
unfoldable pub sidecar_body : Dict Value → NodeInfo → Result (Dict Value)
sidecar_body merged node = do
  instances ← as_list (or_nil (lookup "cassandra_instances" merged))
  instances' ← set_first_instance (ip_text node.listen_ip) instances
  m1 ←
      within "sidecar"
        (λ sidecar.
          within "coordination" (within "cluster_lease_claim" (set_field "enabled" (bool false))) (
            insert "dns_resolver" (str "default_filter")
              (insert "endpoint_access_mode" (str "analytics") sidecar)))
        (insert "cassandra_instances" (list (to_values instances')) merged)
  set_sections (ip_text node.listen_ip) m1

-- `recover` in the deferred function turns a panic into an error.
abbrev recover_as {ℓ} : {A : Type ℓ} → String → Result A → Result A
recover_as text (ok a) = ok a
recover_as text (err e) = err e
recover_as text panic = err (message text)

unfoldable pub sidecar_k8ssandra_overrides : Dict Value → NodeInfo → Result (Dict Value)
unfolding sidecar_body
sidecar_k8ssandra_overrides merged node =
    recover_as "invalid input sidecar.yaml: missing required fields or incorrect types"
      (sidecar_body merged node)
