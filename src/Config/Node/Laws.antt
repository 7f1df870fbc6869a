-- ===== src/Config/Node/Laws.antt =====
-- Which addresses a node announces, and when its environment is refused.
use k8ssandra_client.Common.{
  String, ◌≡◌, ◌≢◌, ◌⊎◌, ◌↔◌, true, Option, ok, err, arith, eq_iff, Error,
}
use k8ssandra_client.Config.Types.{Ip, NodeInfo}
use k8ssandra_client.Config.Node.{parse_bool, rpc_ip_for, parse_node_info}

module _ (parse_ip : String → Option Ip) (env : String → String) where
  -- The addresses of a node, from its environment.
  pub record IsAddressed (n : NodeInfo) : Type 0 where
    pub listens : n.listen_ip ≡ parse_ip (env "POD_IP")
    pub named : (n.name ≡ env "POD_NAME") × (n.rack ≡ env "RACK_NAME")
    -- The host's address is announced only where the flag says so.
    pub announces :
        ((parse_bool (env "USE_HOST_IP_FOR_BROADCAST") ≡ ok true)
          × (n.broadcast_ip ≡ parse_ip (env "HOST_IP")))
        ⊎ (n.broadcast_ip ≡ parse_ip (env "POD_IP"))
    -- Clients are served on every address of the family of the pod's.
    pub serves : n.rpc_ip ≡ rpc_ip_for parse_ip n.listen_ip

  -- A parsed node has the name, rack and addresses of its environment; the host address is
  -- announced only where the flag says so.
  pub parse_node_info-IsAddressed :
      (n : NodeInfo) → parse_node_info parse_ip env ≡ ok n → IsAddressed n
  unfolding parse_node_info
  parse_node_info-IsAddressed n h = record {
    listens = ground arith;
    named = ground arith;
    announces = ground arith;
    serves = ground arith;
  }

  refused_set :
      (e : Error) → parse_node_info parse_ip env ≡ err e → env "USE_HOST_IP_FOR_BROADCAST" ≢ ""
  unfolding parse_node_info
  refused_set e h = ground (arith, eq_iff (env "USE_HOST_IP_FOR_BROADCAST") "")

  refused_value :
      (e : Error)
      → parse_node_info parse_ip env ≡ err e
      → parse_bool (env "USE_HOST_IP_FOR_BROADCAST") ≡ err e
  unfolding parse_node_info
  refused_value e h = ground arith

  -- The environment of a node is refused exactly where USE_HOST_IP_FOR_BROADCAST is set and is no
  -- boolean.
  pub parse_node_info_refused :
      (e : Error)
      → (parse_node_info parse_ip env ≡ err e) ↔ (
          (env "USE_HOST_IP_FOR_BROADCAST" ≢ "")
          × (parse_bool (env "USE_HOST_IP_FOR_BROADCAST") ≡ err e))
  unfolding parse_node_info
  parse_node_info_refused e = (
    λ h. (λ q. refused_set e h q, refused_value e h),
    λ (set, bad). ground (arith, eq_iff (env "USE_HOST_IP_FOR_BROADCAST") "", bad, set),
  )
