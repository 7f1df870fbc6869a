-- ===== src/Helm/Values.antt =====
-- recursiveMerge of pkg/helmutil/release.go: the values of a release, merged into the chart's
-- values.yaml, which keeps its comments and its order. The Go function changes `into` in place and
-- its caller drops both trees on an error, so the merged tree is the result here.
pub mod Steps
pub mod Laws
pub mod Sequences
use k8ssandra_client.Common.{
  String, ℤ, Bool, true, false, ◌&&◌, ◌||◌, Option, none, some, Result, ok, err, panic, Error,
  message, error_text, concat, [], ◌∷◌, ◌>>=◌, ◌==◌, if◌then◌else◌, itoa,
}
use k8ssandra_client.Helm.Nodes.{
  Kind, unset, document, sequence, mapping, scalar, alias, Node, node, Nodes, nil, cons, value_of,
  is_scalar, append_nodes,
}

unfoldable pub nodes_equal : Node → Node → Result Bool
nodes_equal l r = if is_scalar l && is_scalar r then ok (value_of l == value_of r) else panic

-- `existing.Value == v.Value` for some existing item
unfoldable pub has_value : String → Nodes → Bool
has_value v nil = false
has_value v (cons c cs) = value_of c == v || has_value v cs

unfoldable pub add_missing : Nodes → Nodes → Nodes
add_missing nil into = into
add_missing (cons v vs) into =
    add_missing vs (if has_value (value_of v) into then into else append_nodes into (cons v nil))

unfoldable pub input_key_failed : {A : Type 0} → String → Result A → Result A
input_key_failed key (ok a) = ok a
input_key_failed key (err e) =
    err (message (concat ("Failed to parse input key " ∷ key ∷ ": " ∷ error_text e ∷ [])))
input_key_failed key panic = panic

-- The value of the first key of `into` that equals a key.
unfoldable pub find_value : Node → Nodes → Result (Option Node)
find_value key nil = ok none
find_value key (cons k nil) = do equal ← nodes_equal key k; if equal then panic else ok none
find_value key (cons k (cons v rest)) = do
  equal ← nodes_equal key k
  if equal then ok (some v) else find_value key rest

-- The merged value takes the place of the old one.
unfoldable pub set_value : String → Node → Nodes → Nodes
set_value key new nil = nil
set_value key new (cons k nil) = cons k nil
set_value key new (cons k (cons v rest)) =
    if value_of k == key then cons k (cons new rest) else cons k (cons v (set_value key new rest))

-- A value that was found is merged by `merge`; where none was, the pair is appended.
unfoldable pub store_value : Node → Node → Nodes → Option Node → (Node → Result Node) → Result Nodes
store_value key value into none merge = ok (append_nodes into (cons key (cons value nil)))
store_value key value into (some old) merge = do
  new ← input_key_failed (value_of key) (merge old)
  ok (set_value (value_of key) new into)

-- `marshal` is yaml.Marshal, and `unmarshal_int` yaml.Unmarshal into an int.
module _ (marshal : Node → Result String) (unmarshal_int : String → Result ℤ) where
  unfoldable pub merge_scalar : Node → Node → Result String
  merge_scalar (node fk ft fv fc) (node ik it iv ic) =
      if ft == "!!float" && it == "!!int"
      then (do out ← marshal (node fk ft fv fc); new ← unmarshal_int out; ok (itoa new))
      else ok fv

  unfoldable mutual
    pub recursive_merge : Node → Node → Result Node
    recursive_merge (node mapping ft fv fc) (node mapping it iv ic) = do
      merged ← merge_pairs fc ic
      ok (node mapping it iv merged)
    recursive_merge (node sequence ft fv fc) (node sequence it iv ic) =
        ok (node sequence it iv (add_missing fc ic))
    recursive_merge (node document ft fv (cons f fs)) (node document it iv (cons i is)) = do
      merged ← recursive_merge f i
      ok (node document it iv (cons merged is))
    -- from.Content[0] or into.Content[0], out of range
    recursive_merge (node document ft fv fc) (node document it iv ic) = panic
    recursive_merge (node scalar ft fv fc) (node scalar it iv ic) = do
      value ← merge_scalar (node scalar ft fv fc) (node scalar it iv ic)
      ok (node scalar it value ic)
    recursive_merge (node alias ft fv fc) (node alias it iv ic) =
        err (message "can only merge mapping, scalar and sequence nodes")
    recursive_merge (node unset ft fv fc) (node unset it iv ic) =
        err (message "can only merge mapping, scalar and sequence nodes")
    recursive_merge from into = err (message "unable to merge input values")

    -- The keys of `from`, one after the other. A mapping has as many values as keys.
    pub merge_pairs : Nodes → Nodes → Result Nodes
    merge_pairs nil into = ok into
    merge_pairs (cons key nil) into = panic
    merge_pairs (cons key (cons value rest)) into = do
      found ← find_value key into
      merged ← store_value key value into found (λ old. recursive_merge value old)
      merge_pairs rest merged
