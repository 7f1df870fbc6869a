-- ===== src/Kube/Laws.antt =====
-- Which node an address leads to.
use k8ssandra_client.Common.{
  String, Bool, true, false, Option, none, some, ◌&&◌, ◌||◌, List, [], ◌∷◌, any, Dict, lookup,
  insert, lookup-insert, lookup-nil, or_else, Result, ok, ◌==◌, ◌≡◌, refl, ap, ◌∙◌, arith,
  if◌then◌else◌,
}
use k8ssandra_client.Common.Exec.{Exec, continue, pure}
use k8ssandra_client.Kube.{
  NodeAddress, Node, add_addresses, add_nodes, get_all_kubernetes_node_ip_addresses,
}

abbrev pub has_address : String → Node → Bool
has_address ip node = any (λ a. a.is_internal_ip && a.address == ip) node.addresses

-- The last node that has an address.
abbrev pub owner : String → List Node → Option String
owner ip [] = none
owner ip (node ∷ nodes) =
    or_else (owner ip nodes) (if has_address ip node then some node.name else none)

lookup-add_addresses :
    (ip name : String) (addresses : List NodeAddress) (found : Dict String)
    → lookup ip (add_addresses name addresses found) ≡ (
        if any (λ a. a.is_internal_ip && a.address == ip) addresses
        then some name
        else lookup ip found)
lookup-add_addresses ip name [] found = refl
lookup-add_addresses ip name (a ∷ others) found =
    lookup-add_addresses ip name others
      (if a.is_internal_ip then insert a.address name found else found)
    ∙ step a.is_internal_ip (any (λ x. x.is_internal_ip && x.address == ip) others)
  where
    step :
        (internal later : Bool)
        → (if later
            then some name
            else lookup ip (if internal then insert a.address name found else found))
          ≡ (if (internal && a.address == ip) || later then some name else lookup ip found)
    step true true = ground arith
    step true false = ground (arith, lookup-insert a.address ip name found)
    step false later = refl

later_first :
    (later : Option String) (b : Bool) (name : String) (before : Option String)
    → or_else later (if b then some name else before)
      ≡ or_else (or_else later (if b then some name else none)) before
later_first none true name before = refl
later_first none false name before = refl
later_first (some n) b name before = refl

or_else-none : (o : Option String) → or_else o none ≡ o
or_else-none none = refl
or_else-none (some n) = refl

lookup-add_nodes :
    (ip : String) (nodes : List Node) (found : Dict String)
    → lookup ip (add_nodes nodes found) ≡ or_else (owner ip nodes) (lookup ip found)
unfolding add_nodes
lookup-add_nodes ip [] found = refl
lookup-add_nodes ip (node ∷ nodes) found =
    lookup-add_nodes ip nodes (add_addresses node.name node.addresses found)
    ∙ ap (or_else (owner ip nodes)) (lookup-add_addresses ip node.name node.addresses found)
    ∙ later_first (owner ip nodes) (has_address ip node) node.name (lookup ip found)

module _ {W : Type 0} where
  -- Where the nodes can be listed, GetAllKubernetesNodeIPAddresses returns a map that leads each
  -- address to the name of the last node that has it as an internal address, and has no other
  -- address.
  pub get_all_kubernetes_node_ip_addresses-owner :
      (list : Exec W (List Node)) (nodes : List Node) (ip : String) (w last : W)
      → list w ≡ (ok nodes, last)
      → (found : Dict String) × (get_all_kubernetes_node_ip_addresses list w ≡ (ok found, last))
        × (lookup ip found ≡ owner ip nodes)
  unfolding get_all_kubernetes_node_ip_addresses
  get_all_kubernetes_node_ip_addresses-owner list nodes ip w last h = (
    add_nodes nodes [],
    ap (λ (r : Result (List Node) × W). continue r.0 (λ ns. pure (add_nodes ns [])) r.1) h,
    lookup-add_nodes ip nodes []
        ∙ ap (or_else (owner ip nodes)) (lookup-nil ip)
        ∙ or_else-none (owner ip nodes),
  )
