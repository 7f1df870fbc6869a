-- ===== src/Config/Yaml/Sections.antt =====
-- What the parts of the overrides of sidecar.yaml change.
use k8ssandra_client.Common.{
  String, ◌≡◌, refl, ap, ◌∙◌, false, Option, none, some, List, [], ◌∷◌, Dict, lookup, lookup-insert,
  Result, ok, bind-eq-ok, ◌==◌, arith, All, concat, eq_refl,
}
use k8ssandra_client.Config.Types.{
  Value, fields, to_fields, bool, str, list, object, to_values, as_object, or_nil,
}
use k8ssandra_client.Config.Yaml.{within, set_field, disable_flags, set_sections}

fields-to_fields : (m : Dict Value) → fields (to_fields m) ≡ m
fields-to_fields [] = refl
fields-to_fields ((k, v) ∷ m) = ap (λ r. (k, v) ∷ r) (fields-to_fields m)

-- The value at a path of keys below a value.
abbrev pub deep : List String → Option Value → Option Value
deep [] o = o
deep (k ∷ ks) (some (object fs)) = deep ks (lookup k (fields fs))
deep (k ∷ ks) _ = none

pub deep_object :
    (k : String) (ks : List String) (m : Dict Value)
    → deep (k ∷ ks) (some (object (to_fields m))) ≡ deep ks (lookup k m)
deep_object k ks m = ap (λ l. deep ks (lookup k l)) (fields-to_fields m)

-- A change within a key: the part before and after, and every key of the whole.
pub within_lem :
    (key : String) (f : Dict Value → Result (Dict Value)) (m r : Dict Value)
    → within key f m ≡ ok r
    → (sub : Dict Value) × (sub' : Dict Value) × (f sub ≡ ok sub')
      × (lookup key r ≡ some (object (to_fields sub')))
      × ((k : String) → (key == k) ≡ false → lookup k r ≡ lookup k m)
unfolding within
within_lem key f m r h =
    let (sub, _, rest) = bind-eq-ok (as_object (or_nil (lookup key m))) _ h in
    let (sub', changed, same) = bind-eq-ok (f sub) _ rest in
    (
      sub,
      sub',
      changed,
      ground (arith, same, lookup-insert key key (object (to_fields sub')) m, eq_refl key),
      λ k e. ground (arith, same, lookup-insert key k (object (to_fields sub')) m),
    )

-- A field that is set within a key.
within_field :
    (key name : String) (v : Value) (m r : Dict Value)
    → within key (set_field name v) m ≡ ok r
    → (deep (name ∷ []) (lookup key r) ≡ some v)
      × ((k : String) → (key == k) ≡ false → lookup k r ≡ lookup k m)
within_field key name v m r h =
    let (sub, sub', set, at, others) = within_lem key (set_field name v) m r h in
    (
      ap (deep (name ∷ [])) at
          ∙ deep_object name [] sub'
          ∙ ground (arith, set, lookup-insert name name v sub, eq_refl name),
      others,
    )

pub within-within :
    (key inner name : String) (v : Value) (m r : Dict Value)
    → within key (within inner (set_field name v)) m ≡ ok r
    → (deep (inner ∷ name ∷ []) (lookup key r) ≡ some v)
      × ((k : String) → (key == k) ≡ false → lookup k r ≡ lookup k m)
within-within key inner name v m r h =
    let (sub, sub', set, at, others) = within_lem key (within inner (set_field name v)) m r h in
    (
      ap (deep (inner ∷ name ∷ [])) at
          ∙ deep_object inner (name ∷ []) sub'
          ∙ (within_field inner name v sub sub' set).0,
      others,
    )

-- No key of the list is `k`.
abbrev pub IsOther : List String → String → Type 0
IsOther keys k = All (λ j. (j == k) ≡ false) keys

abbrev flag_keys : List String
flag_keys = "cluster_topology_monitor" ∷ "sidecar_peer_health" ∷ "schema_reporting" ∷ []

pub record IsFlagged (before after : Dict Value) : Type 0 where
  pub monitor : deep ("enabled" ∷ []) (lookup "cluster_topology_monitor" after) ≡ some (bool false)
  pub health : deep ("enabled" ∷ []) (lookup "sidecar_peer_health" after) ≡ some (bool false)
  pub reporting : deep ("enabled" ∷ []) (lookup "schema_reporting" after) ≡ some (bool false)
  pub others : (k : String) → IsOther flag_keys k → lookup k after ≡ lookup k before

disable_flags-IsFlagged : (m r : Dict Value) → disable_flags m ≡ ok r → IsFlagged m r
unfolding disable_flags
disable_flags-IsFlagged m r h =
    let (m1, e1, h1) =
      bind-eq-ok (within "cluster_topology_monitor" (set_field "enabled" (bool false)) m) _ h in
    let (m2, e2, e3) =
      bind-eq-ok (within "sidecar_peer_health" (set_field "enabled" (bool false)) m1) _ h1 in
    let (monitor, k1) = within_field "cluster_topology_monitor" "enabled" (bool false) m m1 e1 in
    let (health, k2) = within_field "sidecar_peer_health" "enabled" (bool false) m1 m2 e2 in
    let (reporting, k3) = within_field "schema_reporting" "enabled" (bool false) m2 r e3 in
    record {
      monitor =
          ap (deep ("enabled" ∷ []))
            (k3 "cluster_topology_monitor" refl ∙ k2 "cluster_topology_monitor" refl)
          ∙ monitor;
      health = ap (deep ("enabled" ∷ [])) (k3 "sidecar_peer_health" refl) ∙ health;
      reporting = reporting;
      others = λ k o. k3 k o.1.1.0 ∙ k2 k o.1.0 ∙ k1 k o.0;
    }

abbrev pub section_keys : List String
section_keys = "metrics" ∷ "driver_parameters" ∷ flag_keys

pub record IsSectioned (pod_ip : String) (before after : Dict Value) : Type 0 where
  pub flags : (m : Dict Value) × IsFlagged m after
  pub vertx : deep ("vertx" ∷ "enabled" ∷ []) (lookup "metrics" after) ≡ some (bool false)
  pub contact :
      deep ("contact_points" ∷ []) (lookup "driver_parameters" after)
      ≡ some (list (to_values (str (concat (pod_ip ∷ ":9042" ∷ [])) ∷ [])))
  pub others : (k : String) → IsOther section_keys k → lookup k after ≡ lookup k before

pub set_sections-IsSectioned :
    (pod_ip : String) (m r : Dict Value) → set_sections pod_ip m ≡ ok r → IsSectioned pod_ip m r
unfolding set_sections
set_sections-IsSectioned pod_ip m r h =
    let (m1, e1, h1) = bind-eq-ok (within "metrics" _ m) _ h in
    let (m2, e2, e3) = bind-eq-ok (within "driver_parameters" _ m1) _ h1 in
    let (vertx, k1) = within-within "metrics" "vertx" "enabled" (bool false) m m1 e1 in
    let (contact, k2) = within_field "driver_parameters" "contact_points" _ m1 m2 e2 in
    let f = disable_flags-IsFlagged m2 r e3 in
    record {
      flags = (m2, f);
      vertx =
          ap (deep ("vertx" ∷ "enabled" ∷ []))
            (f.others "metrics" (refl, (refl, (refl, tt))) ∙ k2 "metrics" refl)
          ∙ vertx;
      contact =
          ap (deep ("contact_points" ∷ []))
            (f.others "driver_parameters" (refl, (refl, (refl, tt))))
          ∙ contact;
      others = λ k o. f.others k o.1.1 ∙ k2 k o.1.0 ∙ k1 k o.0;
    }
