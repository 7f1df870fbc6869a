-- ===== src/Helm/Values/Laws.antt =====
-- Which value each key of merged Helm values has.
use k8ssandra_client.Common.{
  String, ℤ, true, false, Option, none, some, Result, ok, ◌==◌, eq_iff, ◌≡◌, refl, arith,
  Bool-cases, inl, inr, if◌then◌else◌, is_some, bind, bind-eq-ok, ap, sym, ◌∙◌,
}
use k8ssandra_client.Helm.Nodes.{Node, node, Nodes, nil, cons, value_of, is_scalar, entry, mapping}
use k8ssandra_client.Helm.Values.{find_value, store_value, recursive_merge, merge_pairs}
use k8ssandra_client.Helm.Values.Steps.{
  is_mapping, has_unique_keys, is_mapping_parts, has_unique_keys_parts, find_value-is_mapping,
  merged_entry, IsStored, store_value-IsStored,
}

merged_entry-none :
    (merge : Node → Node → Result Node) (into : Option Node)
    → merged_entry merge none into ≡ ok into
unfolding merged_entry
merged_entry-none merge into = refl

-- One key of `from` is stored, and the others are merged after it.
after_step :
    (merge : Node → Node → Result Node) (j key : String) (value stored : Node)
    (rest into next after : Nodes)
    → IsStored key into next stored
    → is_some (entry key rest) ≡ false
    → merged_entry merge (some value) (entry key into) ≡ ok (some stored)
    → merged_entry merge (entry j rest) (entry j next) ≡ ok (entry j after)
    → merged_entry merge (if key == j then some value else entry j rest) (entry j into)
      ≡ ok (entry j after)
after_step merge j key value stored rest into next after is new q ih =
    elim (Bool-cases (key == j)) [
      | inl same ↦
          ground
            (arith, eq_iff key j, merged_entry-none merge (entry j next), is.at_key, ih, q, new)
      | inr other ↦ ground (arith, is.elsewhere j other, ih)
    ]

module _ (marshal : Node → Result String) (unmarshal_int : String → Result ℤ) where
  merge_pairs_cons :
      (key value : Node) (rest into : Nodes)
      → merge_pairs marshal unmarshal_int (cons key (cons value rest)) into
        ≡ bind (find_value key into) (λ found.
          bind
            (store_value key value into found (recursive_merge marshal unmarshal_int value))
            (merge_pairs marshal unmarshal_int rest))
  unfolding recursive_merge
  merge_pairs_cons key value rest into = refl

  merge_pairs_nil : (into : Nodes) → merge_pairs marshal unmarshal_int nil into ≡ ok into
  unfolding recursive_merge
  merge_pairs_nil into = refl

  merge_pairs_cons-eq-ok :
      (key value : Node) (rest into after : Nodes)
      → is_scalar key ≡ true
      → is_mapping into ≡ true
      → merge_pairs marshal unmarshal_int (cons key (cons value rest)) into ≡ ok after
      → (next : Nodes) × (stored : Node) × IsStored (value_of key) into next stored
        × (merged_entry
              (recursive_merge marshal unmarshal_int)
              (some value)
              (entry (value_of key) into)
            ≡ ok (some stored))
        × (merge_pairs marshal unmarshal_int rest next ≡ ok after)
  merge_pairs_cons-eq-ok key value rest into after s i h =
      let call = recursive_merge marshal unmarshal_int in
      let others = merge_pairs marshal unmarshal_int rest in
      let found = entry (value_of key) into in
      let stores =
        ap (λ r. bind r (λ old. bind (store_value key value into old (call value)) others))
          (sym (find_value-is_mapping key into s i)) in
      let (next, put, h3) =
        bind-eq-ok (store_value key value into found (call value)) others
          (stores ∙ sym (merge_pairs_cons key value rest into) ∙ h) in
      let (stored, q, is) = store_value-IsStored key value into s i call found next refl put in
      (next, stored, is, q, h3)

  recursive_merge_mapping :
      (ft fv it iv : String) (from into : Nodes)
      → recursive_merge marshal unmarshal_int (node mapping ft fv from) (node mapping it iv into)
        ≡ bind
            (merge_pairs marshal unmarshal_int from into)
            (λ merged. ok (node mapping it iv merged))
  unfolding recursive_merge
  recursive_merge_mapping ft fv it iv from into = refl

  entry-merge_pairs :
      (j : String) (from into after : Nodes)
      → is_mapping from ≡ true
      → has_unique_keys from ≡ true
      → is_mapping into ≡ true
      → merge_pairs marshal unmarshal_int from into ≡ ok after
      → merged_entry (recursive_merge marshal unmarshal_int) (entry j from) (entry j into)
        ≡ ok (entry j after)
  unfolding is_mapping has_unique_keys entry
  entry-merge_pairs j nil into after f u i h = ground (
    arith,
    merge_pairs_nil into,
    merged_entry-none (recursive_merge marshal unmarshal_int) (entry j into),
    h,
  )
  entry-merge_pairs j (cons key nil) into after f u i h = ground arith
  entry-merge_pairs j (cons key (cons value rest)) into after f u i h =
      let (scalar_key, f') = is_mapping_parts key value rest f in
      let (new, u') = has_unique_keys_parts key value rest u in
      let (next, stored, is, q, h2) =
        merge_pairs_cons-eq-ok key value rest into after scalar_key i h in
      after_step (recursive_merge marshal unmarshal_int) j (value_of key) value stored rest into
        next after is new q (entry-merge_pairs j rest next after f' u' is.stays_mapping h2)

  -- Where the merge of two mappings succeeds, whose keys are all scalars and, on the release's
  -- side, differ, each key of the result has the value that it has on the one side that has it,
  -- and the merged value where both have it; the result keeps the tag and text of the chart's
  -- side.
  pub entry-recursive_merge :
      (ft fv it iv : String) (from into : Nodes) (merged : Node)
      → is_mapping from ≡ true
      → has_unique_keys from ≡ true
      → is_mapping into ≡ true
      → recursive_merge marshal unmarshal_int (node mapping ft fv from) (node mapping it iv into)
        ≡ ok merged
      → (after : Nodes) × (merged ≡ node mapping it iv after)
        × ((key : String)
            → merged_entry (recursive_merge marshal unmarshal_int) (entry key from) (entry key into)
              ≡ ok (entry key after))
  entry-recursive_merge ft fv it iv from into merged f u i h =
      let (after, pairs, same) =
        bind-eq-ok (merge_pairs marshal unmarshal_int from into) _
          (sym (recursive_merge_mapping ft fv it iv from into) ∙ h) in
      (after, cc, λ key. entry-merge_pairs key from into after f u i pairs)
