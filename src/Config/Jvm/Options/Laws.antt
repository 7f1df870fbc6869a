-- ===== src/Config/Jvm/Options/Laws.antt =====
-- The precedence of the options of a node and of its pod.
use k8ssandra_client.Common.{
  String, ◌≡◌, refl, ap, ◌∙◌, Bool, false, Option, none, some, [], ◌∷◌, Dict, lookup, insert,
  lookup-insert, lookup-nil, or_else, HasUniqueKeys, Result, ok, ◌==◌, eq_iff, arith, if◌then◌else◌,
  bind-eq-ok, bind,
}
use k8ssandra_client.Config.Types.{Value, list_of}
use k8ssandra_client.Config.Jvm.Options.{
  is_special, copy_entries, merge_additional, merge_options, join_lists,
}

pub lookup-copy_entries {ℓ} :
    {V : Type ℓ} (skip : String → Bool) (source target : Dict V) (k : String)
    → HasUniqueKeys source
    → lookup k (copy_entries skip source target)
      ≡ (if skip k then lookup k target else or_else (lookup k source) (lookup k target))
unfolding copy_entries lookup
lookup-copy_entries skip [] target k h = ground arith
lookup-copy_entries skip ((j, v) ∷ source) target k (u, h) = ground (
  arith,
  eq_iff j k,
  lookup-insert j k v target,
  lookup-copy_entries skip source (if skip j then target else insert j v target) k h,
  ap skip,
  u,
)

-- The first copy loop keeps every entry.
lookup-copy_all {ℓ} :
    {V : Type ℓ} (base : Dict V) (k : String)
    → HasUniqueKeys base
    → lookup k (copy_entries (λ _. false) base []) ≡ lookup k base
lookup-copy_all {V} base k h =
    lookup-copy_entries (λ _. false) base [] k h ∙ ground (arith, lookup-nil {V = V} k)

abbrev joined_options : Option Value → Option Value → Result (Option Value)
joined_options none base = ok base
joined_options (some override) none = ok (some override)
joined_options (some override) (some base) =
    bind (join_lists (list_of base) (list_of override)) (λ v. ok (some v))

-- merge_additional writes one key, and joins its values.
merge_additional_lem :
    (override base : Option Value) (options r : Dict Value)
    → merge_additional override base options ≡ ok r
    → lookup "additional-jvm-opts" options ≡ base
    → (joined_options override base ≡ ok (lookup "additional-jvm-opts" r))
      × ((k : String) → ("additional-jvm-opts" == k) ≡ false → lookup k r ≡ lookup k options)
merge_additional_lem none base options r h b = (ground arith, λ k e. ground arith)
merge_additional_lem (some o) none options r h b = (
  ground (arith, lookup-insert "additional-jvm-opts" "additional-jvm-opts" o options),
  λ k e. ground (arith, lookup-insert "additional-jvm-opts" k o options),
)
merge_additional_lem (some o) (some a) options r h b =
    let (v, joined, same) = bind-eq-ok (join_lists (list_of a) (list_of o)) _ h in
    (
      ground (
        arith,
        joined,
        same,
        lookup-insert "additional-jvm-opts" "additional-jvm-opts" v options,
      ),
      λ k e. ground (arith, same, lookup-insert "additional-jvm-opts" k v options),
    )

is_special_not : (k : String) → is_special k ≡ false → ("additional-jvm-opts" == k) ≡ false
is_special_not k h = ground (arith, eq_iff "additional-jvm-opts" k, eq_iff k "additional-jvm-opts")

module _ (base override r : Dict Value) (merged : merge_options base override ≡ ok r)
    (unique_base : HasUniqueKeys base) (unique_override : HasUniqueKeys override) where
  -- Where the options of a pod, which has each key once like the node, are merged over those of
  -- the node, every option but additional-jvm-opts and garbage_collector has the value of the pod
  -- where it sets one, and else that of the node.
  pub lookup-merge_options :
      (k : String) → is_special k ≡ false → lookup k r ≡ or_else (lookup k override) (lookup k base)
  unfolding merge_options
  lookup-merge_options k h =
      let copied = copy_entries (λ _. false) base [] in
      let (o, added, same) =
        bind-eq-ok
          (merge_additional (lookup "additional-jvm-opts" override)
            (lookup "additional-jvm-opts" copied) copied)
          _ merged in
      let (_, others) = merge_additional_lem _ _ copied o added refl in
      ground (
        arith,
        same,
        others k (is_special_not k h),
        lookup-copy_all base k unique_base,
        lookup-copy_entries is_special override o k unique_override,
      )

  -- The collector is the node's, whatever the pod says; the additional options are joined.
  pub lookup-merge_options_special :
      (lookup "garbage_collector" r ≡ lookup "garbage_collector" base)
      × (joined_options (lookup "additional-jvm-opts" override) (lookup "additional-jvm-opts" base)
          ≡ ok (lookup "additional-jvm-opts" r))
  unfolding merge_options
  lookup-merge_options_special =
      let copied = copy_entries (λ _. false) base [] in
      let (o, added, same) =
        bind-eq-ok
          (merge_additional (lookup "additional-jvm-opts" override)
            (lookup "additional-jvm-opts" copied) copied)
          _ merged in
      let (joined, others) = merge_additional_lem _ _ copied o added refl in
      (
        ground (
          arith,
          same,
          others "garbage_collector" refl,
          lookup-copy_all base "garbage_collector" unique_base,
          lookup-copy_entries is_special override o "garbage_collector" unique_override,
        ),
        ground (
          arith,
          same,
          joined,
          lookup-copy_all base "additional-jvm-opts" unique_base,
          lookup-copy_entries is_special override o "additional-jvm-opts" unique_override,
        ),
      )
