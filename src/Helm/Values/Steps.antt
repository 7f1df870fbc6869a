-- ===== src/Helm/Values/Steps.antt =====
-- What the steps of a merge of Helm values do to the keys of a mapping.
use k8ssandra_client.Common.{
  String, Bool, true, false, not, ◌&&◌, Option, none, some, Result, ok, err, panic, ◌==◌, eq_iff,
  eq_refl, subst, ◌≡◌, refl, arith, if◌then◌else◌, is_some, ◌>>=◌, bind-eq-ok,
}
use k8ssandra_client.Helm.Nodes.{Node, Nodes, nil, cons, value_of, is_scalar, append_nodes, entry}
use k8ssandra_client.Helm.Values.{nodes_equal, find_value, set_value, store_value, input_key_failed}

-- The content of a mapping without anchors: each scalar key has a value.
unfoldable pub is_mapping : Nodes → Bool
is_mapping nil = true
is_mapping (cons k nil) = false
is_mapping (cons k (cons v rest)) = is_scalar k && is_mapping rest

-- The decoder refuses a mapping that has a key twice.
unfoldable pub has_unique_keys : Nodes → Bool
has_unique_keys nil = true
has_unique_keys (cons k nil) = true
has_unique_keys (cons k (cons v rest)) =
    not (is_some (entry (value_of k) rest)) && has_unique_keys rest

pub is_mapping_parts :
    (k v : Node) (rest : Nodes)
    → is_mapping (cons k (cons v rest)) ≡ true
    → (is_scalar k ≡ true) × (is_mapping rest ≡ true)
unfolding is_mapping
is_mapping_parts k v rest m = (ground arith, ground arith)

pub has_unique_keys_parts :
    (k v : Node) (rest : Nodes)
    → has_unique_keys (cons k (cons v rest)) ≡ true
    → (is_some (entry (value_of k) rest) ≡ false) × (has_unique_keys rest ≡ true)
unfolding has_unique_keys
has_unique_keys_parts k v rest u = (ground arith, ground arith)

pub find_value-is_mapping :
    (key : Node) (into : Nodes)
    → is_scalar key ≡ true
    → is_mapping into ≡ true
    → find_value key into ≡ ok (entry (value_of key) into)
unfolding find_value nodes_equal is_mapping entry
find_value-is_mapping key nil s m = refl
find_value-is_mapping key (cons k nil) s m = ground arith
find_value-is_mapping key (cons k (cons v rest)) s m = ground (
  arith,
  eq_iff (value_of key) (value_of k),
  eq_iff (value_of k) (value_of key),
  find_value-is_mapping key rest,
)

entry-set_value_same :
    (key : String) (old new : Node) (into : Nodes)
    → entry key into ≡ some old
    → entry key (set_value key new into) ≡ some new
unfolding entry set_value
entry-set_value_same key old new nil h = ground arith
entry-set_value_same key old new (cons k nil) h = ground arith
entry-set_value_same key old new (cons k (cons v rest)) h =
    ground (arith, entry-set_value_same key old new rest)

entry-set_value_other :
    (j key : String) (new : Node) (into : Nodes)
    → (key == j) ≡ false
    → entry j (set_value key new into) ≡ entry j into
unfolding entry set_value
entry-set_value_other j key new nil d = refl
entry-set_value_other j key new (cons k nil) d = refl
entry-set_value_other j key new (cons k (cons v rest)) d = ground (
  arith,
  eq_iff (value_of k) key,
  eq_iff (value_of k) j,
  eq_iff key j,
  entry-set_value_other j key new rest,
)

is_mapping-set_value :
    (key : String) (new : Node) (into : Nodes)
    → is_mapping into ≡ true
    → is_mapping (set_value key new into) ≡ true
unfolding is_mapping set_value
is_mapping-set_value key new nil m = refl
is_mapping-set_value key new (cons k nil) m = m
is_mapping-set_value key new (cons k (cons v rest)) m =
    ground (arith, is_mapping-set_value key new rest)

entry-append_nodes :
    (j : String) (key value : Node) (into : Nodes)
    → is_mapping into ≡ true
    → entry j (append_nodes into (cons key (cons value nil))) ≡ (
        if is_some (entry j into)
        then entry j into
        else if value_of key == j
        then some value
        else none)
unfolding entry is_mapping
entry-append_nodes j key value nil m = ground arith
entry-append_nodes j key value (cons k nil) m = ground arith
entry-append_nodes j key value (cons k (cons v rest)) m =
    ground (arith, entry-append_nodes j key value rest)

is_mapping-append_nodes :
    (key value : Node) (into : Nodes)
    → is_scalar key ≡ true
    → is_mapping into ≡ true
    → is_mapping (append_nodes into (cons key (cons value nil))) ≡ true
unfolding is_mapping
is_mapping-append_nodes key value nil s m = ground arith
is_mapping-append_nodes key value (cons k nil) s m = ground arith
is_mapping-append_nodes key value (cons k (cons v rest)) s m =
    ground (arith, is_mapping-append_nodes key value rest)

-- What a step does to one key: `stored` is the value of the key `key` after it.
pub record IsStored (key : String) (into after : Nodes) (stored : Node) : Type 0 where
  pub at_key : entry key after ≡ some stored
  pub elsewhere : (j : String) → (key == j) ≡ false → entry j after ≡ entry j into
  pub stays_mapping : is_mapping after ≡ true

-- What a key is to have after the merge, from its values on both sides: the values are merged
-- where it has two, and the one that there is stays where it has one.
unfoldable pub merged_entry :
    (Node → Node → Result Node) → Option Node → Option Node → Result (Option Node)
merged_entry merge none into = ok into
merged_entry merge (some v) none = ok (some v)
merged_entry merge (some v) (some old) = do new ← merge v old; ok (some new)

input_key_failed-eq-ok :
    {A : Type 0} (key : String) (r : Result A) (a : A) → input_key_failed key r ≡ ok a → r ≡ ok a
unfolding input_key_failed
input_key_failed-eq-ok key (ok b) a h = h
input_key_failed-eq-ok key (err e) a h = cc
input_key_failed-eq-ok key panic a h = cc

module _ (key value : Node) (into : Nodes) (s : is_scalar key ≡ true)
    (m : is_mapping into ≡ true) where
  append_nodes-IsStored :
      entry (value_of key) into ≡ none
      → IsStored (value_of key) into (append_nodes into (cons key (cons value nil))) value
  append_nodes-IsStored e = record {
    at_key =
        ground (arith, entry-append_nodes (value_of key) key value into m, eq_refl (value_of key));
    elsewhere = λ j d. ground (arith, entry-append_nodes j key value into m);
    stays_mapping = is_mapping-append_nodes key value into s m;
  }

  set_value-IsStored :
      (old new : Node)
      → entry (value_of key) into ≡ some old
      → IsStored (value_of key) into (set_value (value_of key) new into) new
  set_value-IsStored old new e = record {
    at_key = entry-set_value_same (value_of key) old new into e;
    elsewhere = λ j. entry-set_value_other j (value_of key) new into;
    stays_mapping = is_mapping-set_value (value_of key) new into m;
  }

  pub store_value-IsStored :
      (merge : Node → Node → Result Node) (old : Option Node) (after : Nodes)
      → entry (value_of key) into ≡ old
      → store_value key value into old (merge value) ≡ ok after
      → (stored : Node) × (merged_entry merge (some value) old ≡ ok (some stored))
        × IsStored (value_of key) into after stored
  unfolding store_value merged_entry
  store_value-IsStored merge none after e h = (
    value,
    refl,
    subst (λ c. IsStored (value_of key) into c value) (cc) (append_nodes-IsStored e),
  )
  store_value-IsStored merge (some old) after e h =
      let (new, called, stored) =
        bind-eq-ok (input_key_failed (value_of key) (merge value old)) _ h in
      (
        new,
        ground (arith, input_key_failed-eq-ok (value_of key) (merge value old) new called),
        subst (λ c. IsStored (value_of key) into c new) (cc) (set_value-IsStored old new e),
      )
