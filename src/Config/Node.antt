-- ===== src/Config/Node.antt =====
-- parseNodeInfo of pkg/config/builder.go, over the environment of the process.
pub mod Laws
use k8ssandra_client.Common.{
  String, Bool, true, false, not, ◌||◌, Option, none, some, List, [], ◌∷◌, any, Result, ok, err,
  message, ◌>>=◌, ◌==◌, nat_eq, if◌then◌else◌,
}
use k8ssandra_client.Config.Types.{Ip, NodeInfo}

-- strconv.ParseBool
unfoldable pub parse_bool : String → Result Bool
parse_bool s =
    if any (λ t. t == s) ("1" ∷ "t" ∷ "T" ∷ "TRUE" ∷ "true" ∷ "True" ∷ [])
    then ok true
    else if any (λ t. t == s) ("0" ∷ "f" ∷ "F" ∷ "FALSE" ∷ "false" ∷ "False" ∷ [])
    then ok false
    else err (message "strconv.ParseBool: invalid syntax")

-- `parse_ip` is net.ParseIP and `env` os.Getenv, which gives "" for what is not set.
module _ (parse_ip : String → Option Ip) where
  -- 0.0.0.0 for a pod with an IPv4 address, :: for one with an address of 16 bytes.
  unfoldable pub rpc_ip_for : Option Ip → Option Ip
  rpc_ip_for none = none
  rpc_ip_for (some ip) =
      if ip.is_v4 then parse_ip "0.0.0.0" else if nat_eq ip.len 16 then parse_ip "::" else none

  unfoldable pub parse_node_info : (String → String) → Result NodeInfo
  parse_node_info env = do
    use_host_ip ←
        (if not (env "USE_HOST_IP_FOR_BROADCAST" == "")
          then parse_bool (env "USE_HOST_IP_FOR_BROADCAST")
          else ok false)
    ok (record {
      name = env "POD_NAME";
      rack = env "RACK_NAME";
      listen_ip = parse_ip (env "POD_IP");
      broadcast_ip = parse_ip (if use_host_ip then env "HOST_IP" else env "POD_IP");
      rpc_ip = rpc_ip_for (parse_ip (env "POD_IP"));
    })
