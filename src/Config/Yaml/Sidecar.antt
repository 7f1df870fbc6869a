-- ===== src/Config/Yaml/Sidecar.antt =====
-- What sidecar.yaml holds after the overrides of the program.
use k8ssandra_client.Common.{
  String, ◌≡◌, ◌≢◌, refl, sym, ap, subst, Option, ◌∙◌, false, some, List, [], ◌∷◌, Dict, lookup,
  insert, lookup-insert, Result, ok, err, panic, bind-eq-ok, ◌==◌, concat,
}
use k8ssandra_client.Config.Types.{
  Value, bool, str, int, object, as_object, to_fields, list, to_values, as_list, or_nil, NodeInfo,
  ip_text,
}
use k8ssandra_client.Config.Yaml.{
  within, set_field, set_first_instance, sidecar_body, recover_as, sidecar_k8ssandra_overrides,
}
use k8ssandra_client.Config.Yaml.Sections.{
  IsOther, deep, deep_object, section_keys, set_sections-IsSectioned, within-within, within_lem,
}

-- The top-level keys that the overrides change.
abbrev pub sidecar_keys : List String
sidecar_keys = "cassandra_instances" ∷ "sidecar" ∷ section_keys

-- The first instance of a list of them gets its id, host and port, and keeps its other fields, as the
-- list keeps its other instances.
pub record IsPlaced (pod_ip : String) (before after : Option Value) : Type 0 where
  pub first : Value
  pub rest : List Value
  pub instance_of_pod : Dict Value
  pub placed : Dict Value
  pub listed : as_list (or_nil before) ≡ ok (first ∷ rest)
  pub read : as_object first ≡ ok instance_of_pod
  pub written : after ≡ some (list (to_values (object (to_fields placed) ∷ rest)))
  pub id : lookup "id" placed ≡ some (int 1)
  pub host : lookup "host" placed ≡ some (str pod_ip)
  pub port : lookup "port" placed ≡ some (int 9042)
  pub kept :
      (k : String)
      → IsOther ("id" ∷ "host" ∷ "port" ∷ []) k
      → lookup k placed ≡ lookup k instance_of_pod

set_first_instance-IsPlaced :
    (pod_ip : String) (before : Option Value) (xs ys : List Value)
    → as_list (or_nil before) ≡ ok xs
    → set_first_instance pod_ip xs ≡ ok ys
    → IsPlaced pod_ip before (some (list (to_values ys)))
unfolding set_first_instance
set_first_instance-IsPlaced pod_ip before [] ys l h = cc
set_first_instance-IsPlaced pod_ip before (first ∷ rest) ys l h =
    let (it, read, h1) = bind-eq-ok (as_object first) _ h in
    let with_id = insert "id" (int 1) it in
    let with_host = insert "host" (str pod_ip) with_id in
    let placed = insert "port" (int 9042) with_host in
    let same : object (to_fields placed) ∷ rest ≡ ys = cc h1 in
    record {
      first = first;
      rest = rest;
      instance_of_pod = it;
      placed = placed;
      listed = l;
      read = read;
      written = ap (λ l. some (list (to_values l))) (sym same);
      id =
          lookup-insert "port" "id" (int 9042) with_host
          ∙ lookup-insert "host" "id" (str pod_ip) with_id
          ∙ lookup-insert "id" "id" (int 1) it;
      host =
          lookup-insert "port" "host" (int 9042) with_host
          ∙ lookup-insert "host" "host" (str pod_ip) with_id;
      port = lookup-insert "port" "port" (int 9042) with_host;
      kept = λ k o.
          lookup-insert "port" k (int 9042) with_host
          ∙ rw o.1.1.0 (
              lookup-insert "host" k (str pod_ip) with_id
              ∙ rw o.1.0 (lookup-insert "id" k (int 1) it ∙ rw o.0 refl));
    }

pub record IsSidecar (node : NodeInfo) (before after : Dict Value) : Type 0 where
  pub instances :
      IsPlaced
        (ip_text node.listen_ip)
        (lookup "cassandra_instances" before)
        (lookup "cassandra_instances" after)
  pub resolver : deep ("dns_resolver" ∷ []) (lookup "sidecar" after) ≡ some (str "default_filter")
  pub lease :
      deep ("coordination" ∷ "cluster_lease_claim" ∷ "enabled" ∷ []) (lookup "sidecar" after)
      ≡ some (bool false)
  pub access : deep ("endpoint_access_mode" ∷ []) (lookup "sidecar" after) ≡ some (str "analytics")
  pub vertx : deep ("vertx" ∷ "enabled" ∷ []) (lookup "metrics" after) ≡ some (bool false)
  pub contact :
      deep ("contact_points" ∷ []) (lookup "driver_parameters" after)
      ≡ some (list (to_values (str (concat (ip_text node.listen_ip ∷ ":9042" ∷ [])) ∷ [])))
  pub monitor : deep ("enabled" ∷ []) (lookup "cluster_topology_monitor" after) ≡ some (bool false)
  pub health : deep ("enabled" ∷ []) (lookup "sidecar_peer_health" after) ≡ some (bool false)
  pub reporting : deep ("enabled" ∷ []) (lookup "schema_reporting" after) ≡ some (bool false)
  pub others : (k : String) → IsOther sidecar_keys k → lookup k after ≡ lookup k before

access_set :
    (m : Dict Value)
    → lookup "endpoint_access_mode" (
        insert "dns_resolver"
          (str "default_filter")
          (insert "endpoint_access_mode" (str "analytics") m))
      ≡ some (str "analytics")
access_set m =
    lookup-insert "dns_resolver" "endpoint_access_mode" (str "default_filter") _
    ∙ lookup-insert "endpoint_access_mode" "endpoint_access_mode" (str "analytics") m

resolver_set :
    (m : Dict Value)
    → lookup "dns_resolver" (
        insert "dns_resolver"
          (str "default_filter")
          (insert "endpoint_access_mode" (str "analytics") m))
      ≡ some (str "default_filter")
resolver_set m = lookup-insert "dns_resolver" "dns_resolver" (str "default_filter") _

-- The changes of the key `sidecar`.
sidecar_key :
    (m r : Dict Value)
    → within "sidecar"
        (λ sidecar.
          within "coordination" (within "cluster_lease_claim" (set_field "enabled" (bool false))) (
            insert "dns_resolver"
              (str "default_filter")
              (insert "endpoint_access_mode" (str "analytics") sidecar)))
        m
      ≡ ok r
    → (deep ("coordination" ∷ "cluster_lease_claim" ∷ "enabled" ∷ []) (lookup "sidecar" r)
        ≡ some (bool false))
      × (deep ("endpoint_access_mode" ∷ []) (lookup "sidecar" r) ≡ some (str "analytics"))
      × (deep ("dns_resolver" ∷ []) (lookup "sidecar" r) ≡ some (str "default_filter"))
      × ((k : String) → ("sidecar" == k) ≡ false → lookup k r ≡ lookup k m)
sidecar_key m r h =
    let (sub, sub', set, at, others) = within_lem "sidecar" _ m r h in
    let (lease, inner_others) =
      within-within "coordination" "cluster_lease_claim" "enabled" (bool false) _ sub' set in
    (
      ap (deep ("coordination" ∷ "cluster_lease_claim" ∷ "enabled" ∷ [])) at
          ∙ deep_object "coordination" ("cluster_lease_claim" ∷ "enabled" ∷ []) sub'
          ∙ lease,
      ap (deep ("endpoint_access_mode" ∷ [])) at
          ∙ deep_object "endpoint_access_mode" [] sub'
          ∙ inner_others "endpoint_access_mode" refl
          ∙ access_set sub,
      ap (deep ("dns_resolver" ∷ [])) at
          ∙ deep_object "dns_resolver" [] sub'
          ∙ inner_others "dns_resolver" refl
          ∙ resolver_set sub,
      others,
    )

recover_as_no_panic : (text : String) (r : Result (Dict Value)) → recover_as text r ≢ panic
recover_as_no_panic text (ok a) = λ h. cc
recover_as_no_panic text (err e) = λ h. cc
recover_as_no_panic text panic = λ h. cc

recover_as_ok :
    (text : String) (m : Result (Dict Value)) (r : Dict Value) → recover_as text m ≡ ok r → m ≡ ok r
recover_as_ok text (ok a) r h = h
recover_as_ok text (err e) r h = cc
recover_as_ok text panic r h = cc

sidecar_body-IsSidecar :
    (node : NodeInfo) (m r : Dict Value) → sidecar_body m node ≡ ok r → IsSidecar node m r
unfolding sidecar_body
sidecar_body-IsSidecar node m r h =
    let pod_ip = ip_text node.listen_ip in
    let (xs, listed, h1) = bind-eq-ok (as_list (or_nil (lookup "cassandra_instances" m))) _ h in
    let (ys, set, h2) = bind-eq-ok (set_first_instance pod_ip xs) _ h1 in
    let m1 = insert "cassandra_instances" (list (to_values ys)) m in
    let (m2, e, h3) = bind-eq-ok (within "sidecar" _ m1) _ h2 in
    let (lease, access, resolver, k2) = sidecar_key m1 m2 e in
    let s = set_sections-IsSectioned pod_ip m2 r h3 in
    let kept = s.others "sidecar" (refl, (refl, (refl, (refl, (refl, tt))))) in
    let kept_list = s.others "cassandra_instances" (refl, (refl, (refl, (refl, (refl, tt))))) in
    record {
      instances =
          subst (IsPlaced pod_ip (lookup "cassandra_instances" m))
            (sym (
              kept_list
              ∙ k2 "cassandra_instances" refl
              ∙ lookup-insert "cassandra_instances" "cassandra_instances" (list (to_values ys)) m))
            (set_first_instance-IsPlaced pod_ip (lookup "cassandra_instances" m) xs ys listed set);
      resolver = ap (deep ("dns_resolver" ∷ [])) kept ∙ resolver;
      lease = ap (deep ("coordination" ∷ "cluster_lease_claim" ∷ "enabled" ∷ [])) kept ∙ lease;
      access = ap (deep ("endpoint_access_mode" ∷ [])) kept ∙ access;
      vertx = s.vertx;
      contact = s.contact;
      monitor = s.flags.1.monitor;
      health = s.flags.1.health;
      reporting = s.flags.1.reporting;
      others = λ k o.
          s.others k o.1.1
          ∙ k2 k o.1.0
          ∙ lookup-insert "cassandra_instances" k (list (to_values ys)) m
          ∙ rw o.0;
    }

-- The overrides of sidecar.yaml never panic, whatever the document. Where they succeed, the first
-- of its Cassandra instances has the id 1, the address of the pod as its host and the port 9042,
-- and its other fields and the other instances are kept; the access mode, the DNS resolver, the
-- lease claim, the contact point, vertx, the topology monitor, the peer health and the schema
-- reporting are set as required, and every other top-level key is kept.
pub sidecar_k8ssandra_overrides-IsSidecar :
    (node : NodeInfo) (m : Dict Value)
    → (sidecar_k8ssandra_overrides m node ≢ panic)
      × ((r : Dict Value) → sidecar_k8ssandra_overrides m node ≡ ok r → IsSidecar node m r)
unfolding sidecar_k8ssandra_overrides
sidecar_k8ssandra_overrides-IsSidecar node m = (
  recover_as_no_panic _ (sidecar_body m node),
  λ r h. sidecar_body-IsSidecar node m r (recover_as_ok _ (sidecar_body m node) r h),
)
