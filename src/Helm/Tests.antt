-- ===== src/Helm/Tests.antt =====
-- The theorems on Helm values at a chart's values and those of a release.
mod Cached
mod Read
use k8ssandra_client.Common.{String, ℤ, pos, ◌≡◌, refl, true, Result, ok, itoa}
use k8ssandra_client.Helm.Nodes.{Node, node, Nodes, nil, cons, mapping, sequence, scalar, entry}
use k8ssandra_client.Helm.Values.{
  recursive_merge, nodes_equal, find_value, set_value, store_value, input_key_failed, merge_scalar,
}
use k8ssandra_client.Helm.Values.Steps.{is_mapping, has_unique_keys, merged_entry}
use k8ssandra_client.Helm.Values.Laws.{entry-recursive_merge}
use k8ssandra_client.Helm.Values.Sequences.{IsUnion, recursive_merge-IsUnion}

abbrev text : String → Node
text s = node scalar "!!str" s nil

-- A YAML library that prints scalars as they are and reads every number as 3.
abbrev marshal : Node → Result String
marshal (node k t v c) = ok v

abbrev unmarshal_int : String → Result ℤ
unmarshal_int s = ok (pos 3)

-- {a: {x: 1}, b: two} over {b: one, a: {y: 2}, c: kept}
abbrev release_values : Nodes
release_values = cons (text "a") (
    cons (node mapping "!!map" "" (cons (text "x") (cons (text "1") nil)))
      (cons (text "b") (cons (text "two") nil)))

abbrev chart_values : Nodes
chart_values = cons (text "b") (
    cons (text "one") (
      cons (text "a") (
        cons (node mapping "!!map" "" (cons (text "y") (cons (text "2") nil)))
          (cons (text "c") (cons (text "kept") nil)))))

abbrev merged_values : Nodes
merged_values = cons (text "b") (
    cons (text "two") (
      cons (text "a") (
        cons
          (node mapping "!!map" ""
            (cons (text "y") (cons (text "2") (cons (text "x") (cons (text "1") nil)))))
          (cons (text "c") (cons (text "kept") nil)))))

merges :
    recursive_merge marshal unmarshal_int
      (node mapping "!!map" "" release_values)
      (node mapping "!!map" "" chart_values)
    ≡ ok (node mapping "!!map" "" merged_values)
unfolding recursive_merge find_value set_value store_value input_key_failed nodes_equal merge_scalar
merges = refl

-- A float that replaces an int is read as an int again.
float_over_int :
    recursive_merge marshal unmarshal_int
      (node scalar "!!float" "3.0" nil)
      (node scalar "!!int" "7" nil)
    ≡ ok (node scalar "!!int" "3" nil)
unfolding recursive_merge merge_scalar itoa
float_over_int = refl

well_formed :
    (is_mapping release_values ≡ true)
    × (has_unique_keys release_values ≡ true)
    × (is_mapping chart_values ≡ true)
unfolding is_mapping has_unique_keys entry
well_formed = (refl, refl, refl)

entry-recursive_merge_example :
    (after : Nodes) × (node mapping "!!map" "" merged_values ≡ node mapping "!!map" "" after)
    × ((key : String)
        → merged_entry
            (recursive_merge marshal unmarshal_int)
            (entry key release_values)
            (entry key chart_values)
          ≡ ok (entry key after))
entry-recursive_merge_example =
    entry-recursive_merge marshal unmarshal_int "!!map" "" "!!map" "" release_values chart_values
      (node mapping "!!map" "" merged_values) well_formed.0 well_formed.1 well_formed.2 merges

recursive_merge-IsUnion_example :
    (after : Nodes) × (recursive_merge marshal unmarshal_int
        (node sequence "!!seq" "" (cons (text "a") (cons (text "b") nil)))
        (node sequence "!!seq" "" (cons (text "b") nil))
      ≡ ok (node sequence "!!seq" "" after))
    × IsUnion (cons (text "a") (cons (text "b") nil)) (cons (text "b") nil) after
recursive_merge-IsUnion_example =
    recursive_merge-IsUnion marshal unmarshal_int "!!seq" "" "!!seq" ""
      (cons (text "a") (cons (text "b") nil)) (cons (text "b") nil)
