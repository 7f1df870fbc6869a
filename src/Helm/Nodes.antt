-- ===== src/Helm/Nodes.antt =====
-- yaml.Node of gopkg.in/yaml.v3, the fields that pkg/helmutil/release.go reads and writes.
use k8ssandra_client.Common.{String, Bool, true, false, Option, none, some, ◌==◌, if◌then◌else◌}

pub data Kind : Type 0 where
  unset : Kind
  document : Kind
  sequence : Kind
  mapping : Kind
  scalar : Kind
  alias : Kind

mutual
  pub data Node : Type 0 where
    -- Kind, Tag, Value and Content
    node : Kind → String → String → Nodes → Node

  pub data Nodes : Type 0 where
    nil : Nodes
    cons : Node → Nodes → Nodes

abbrev pub tag_of : Node → String
tag_of (node k t v c) = t

abbrev pub value_of : Node → String
value_of (node k t v c) = v

abbrev pub content_of : Node → Nodes
content_of (node k t v c) = c

abbrev pub is_scalar_kind : Kind → Bool
is_scalar_kind scalar = true
is_scalar_kind _ = false

abbrev pub is_scalar : Node → Bool
is_scalar (node k t v c) = is_scalar_kind k

abbrev pub append_nodes : Nodes → Nodes → Nodes
append_nodes nil ds = ds
append_nodes (cons c cs) ds = cons c (append_nodes cs ds)

-- The value of a key: the node that follows the first key node with this text.
unfoldable pub entry : String → Nodes → Option Node
entry key nil = none
entry key (cons k nil) = none
entry key (cons k (cons v rest)) = if value_of k == key then some v else entry key rest
