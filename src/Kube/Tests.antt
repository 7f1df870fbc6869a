-- ===== src/Kube/Tests.antt =====
-- The addresses of two nodes that share one.
use k8ssandra_client.Common.{String, true, false, List, [], ◌∷◌, ok, insert, ◌≡◌, refl}
use k8ssandra_client.Kube.{NodeAddress, Node, get_all_kubernetes_node_ip_addresses, add_nodes}

abbrev internal : String → NodeAddress
internal ip = record { is_internal_ip = true; address = ip }

abbrev nodes : List Node
nodes =
    record {
      name = "a";
      addresses = internal "10.0.0.1" ∷ record { is_internal_ip = false; address = "a.host" } ∷ [];
    }
    ∷ record { name = "b"; addresses = internal "10.0.0.2" ∷ internal "10.0.0.1" ∷ [] }
    ∷ []

shared :
    get_all_kubernetes_node_ip_addresses (λ w. (ok nodes, w)) tt
    ≡ (ok (("10.0.0.1", "b") ∷ ("10.0.0.2", "b") ∷ []), tt)
unfolding get_all_kubernetes_node_ip_addresses add_nodes insert
shared = refl
