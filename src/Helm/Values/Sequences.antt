-- ===== src/Helm/Values/Sequences.antt =====
-- The items of a merged sequence of Helm values.
use k8ssandra_client.Common.{
  String, ℤ, Bool, true, false, not, ◌&&◌, ◌||◌, Result, ok, ◌==◌, eq_iff, ◌≡◌, refl, sym, ap, ◌∙◌,
  arith, Bool-cases, inl, inr,
}
use k8ssandra_client.Helm.Nodes.{Node, node, Nodes, nil, cons, value_of, append_nodes, sequence}
use k8ssandra_client.Helm.Values.{has_value, add_missing, recursive_merge}

-- No two items have the same text.
unfoldable pub has_unique_values : Nodes → Bool
has_unique_values nil = true
has_unique_values (cons c cs) = not (has_value (value_of c) cs) && has_unique_values cs

append_nodes_assoc :
    (a b c : Nodes) → append_nodes (append_nodes a b) c ≡ append_nodes a (append_nodes b c)
append_nodes_assoc nil b c = refl
append_nodes_assoc (cons x a) b c = ap (cons x) (append_nodes_assoc a b c)

append_nodes_nil : (a : Nodes) → append_nodes a nil ≡ a
append_nodes_nil nil = refl
append_nodes_nil (cons x a) = ap (cons x) (append_nodes_nil a)

has_value-append_nodes :
    (v : String) (item : Node) (into : Nodes)
    → has_value v (append_nodes into (cons item nil)) ≡ (has_value v into || value_of item == v)
unfolding has_value
has_value-append_nodes v item nil = ground arith
has_value-append_nodes v item (cons c cs) = ground (arith, has_value-append_nodes v item cs)

has_unique_values-append_nodes :
    (item : Node) (into : Nodes)
    → has_value (value_of item) into ≡ false
    → has_unique_values (append_nodes into (cons item nil)) ≡ has_unique_values into
unfolding has_unique_values has_value
has_unique_values-append_nodes item nil h = refl
has_unique_values-append_nodes item (cons c cs) h = ground (
  arith,
  has_unique_values-append_nodes item cs,
  has_value-append_nodes (value_of c) item cs,
  eq_iff (value_of item) (value_of c),
  eq_iff (value_of c) (value_of item),
)

-- An item that is there adds no value.
covered_lem :
    (v : String) (item : Node) (rest into after : Nodes)
    → has_value (value_of item) into ≡ true
    → has_value v after ≡ (has_value v into || has_value v rest)
    → has_value v after ≡ (has_value v into || (value_of item == v || has_value v rest))
covered_lem v item rest into after there h = ground (arith, eq_iff (value_of item) v, there, h)

-- The items of `into`, and those added to them, of which no two have the same text and none that of
-- an item of `into`.
pub record IsUnion (from into after : Nodes) : Type 0 where
  pub added : Nodes
  pub extends : after ≡ append_nodes into added
  pub distinct : has_unique_values added ≡ true
  pub new : (v : String) → has_value v added ≡ true → has_value v into ≡ false
  pub values : (v : String) → has_value v after ≡ (has_value v into || has_value v from)
  pub unique : has_unique_values after ≡ has_unique_values into

-- An item that was added is not added again.
distinct_lem :
    (item : Node) (into added : Nodes)
    → has_unique_values added ≡ true
    → ((v : String)
        → has_value v added ≡ true
        → has_value v (append_nodes into (cons item nil)) ≡ false)
    → has_unique_values (cons item added) ≡ true
unfolding has_unique_values
distinct_lem item into added u new = elim (Bool-cases (has_value (value_of item) added)) [
  | inl again ↦ ground (
    arith,
    new (value_of item) again,
    has_value-append_nodes (value_of item) item into,
    eq_iff (value_of item) (value_of item),
  )
  | inr other ↦ ground (arith, other, u)
]

new_lem :
    (v : String) (item : Node) (into added : Nodes)
    → has_value (value_of item) into ≡ false
    → ((v : String)
        → has_value v added ≡ true
        → has_value v (append_nodes into (cons item nil)) ≡ false)
    → has_value v (cons item added) ≡ true
    → has_value v into ≡ false
unfolding has_value
new_lem v item into added absent new h = elim (Bool-cases (has_value v added)) [
  | inl there ↦ ground (arith, new v there, has_value-append_nodes v item into)
  | inr other ↦ ground (arith, h, other, absent, eq_iff (value_of item) v)
]

add_missing-IsUnion : (from into : Nodes) → IsUnion from into (add_missing from into)
unfolding add_missing has_value has_unique_values
add_missing-IsUnion nil into = record {
  added = nil;
  extends = sym (append_nodes_nil into);
  distinct = refl;
  new = λ v h. ground (arith, h);
  values = λ v. ground arith;
  unique = refl;
}
add_missing-IsUnion (cons item rest) into = elim (Bool-cases (has_value (value_of item) into)) [
  | inl there ↦
      let u = add_missing-IsUnion rest into in
      rw there (record {
        added = u.added;
        extends = u.extends;
        distinct = u.distinct;
        new = u.new;
        values = λ v. covered_lem v item rest into (add_missing rest into) there (u.values v);
        unique = u.unique;
      })
  | inr new ↦
      let u = add_missing-IsUnion rest (append_nodes into (cons item nil)) in
      rw new (record {
        added = cons item u.added;
        extends = u.extends ∙ append_nodes_assoc into (cons item nil) u.added;
        distinct = distinct_lem item into u.added u.distinct u.new;
        new = λ v h. new_lem v item into u.added new u.new h;
        values = λ v. ground (arith, u.values v, has_value-append_nodes v item into);
        unique = u.unique ∙ has_unique_values-append_nodes item into new;
      })
]

module _ (marshal : Node → Result String) (unmarshal_int : String → Result ℤ) where
  -- Merging two sequences succeeds: the items of the chart's side come first and in order, then
  -- items are added until each item of the other side is there by its text, and of the items that
  -- are added no two have the same text and none that of an item of the chart's side.
  pub recursive_merge-IsUnion :
      (ft fv it iv : String) (from into : Nodes)
      → (after : Nodes) × (recursive_merge marshal unmarshal_int
            (node sequence ft fv from)
            (node sequence it iv into)
          ≡ ok (node sequence it iv after))
        × IsUnion from into after
  unfolding recursive_merge
  recursive_merge-IsUnion ft fv it iv from into =
      (add_missing from into, refl, add_missing-IsUnion from into)
