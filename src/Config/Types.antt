-- ===== src/Config/Types.antt =====
-- pkg/config/types.go, and the values of `map[string]interface{}` that come from JSON and YAML.
use k8ssandra_client.Common.{
  ℕ, ℤ, String, Bool, Option, none, some, List, [], ◌∷◌, Dict, Result, ok, panic,
}

-- net.IP as net.ParseIP returns it: its text, whether To4 gives an address, and its bytes.
pub record Ip : Type 0 where
  pub text : String
  pub is_v4 : Bool
  pub len : ℕ

mutual
  pub data Value : Type 0 where
    null : Value
    bool : Bool → Value
    -- json.Number: the decoder keeps the text of a number
    number : String → Value
    int : ℕ → Value
    str : String → Value
    -- a net.IP, which may be nil
    address : Option Ip → Value
    list : Values → Value
    object : Fields → Value

  pub data Values : Type 0 where
    nil : Values
    cons : Value → Values → Values

  pub data Fields : Type 0 where
    end : Fields
    field : String → Value → Fields → Fields

abbrev pub values : Values → List Value
values nil = []
values (cons v vs) = v ∷ values vs

abbrev pub to_values : List Value → Values
to_values [] = nil
to_values (v ∷ vs) = cons v (to_values vs)

abbrev pub fields : Fields → Dict Value
fields end = []
fields (field k v fs) = (k, v) ∷ fields fs

abbrev pub to_fields : Dict Value → Fields
to_fields [] = end
to_fields ((k, v) ∷ m) = field k v (to_fields m)

-- v.(string), v.([]any), v.(map[string]any) and v.(bool) with one result: they panic on another type.
abbrev pub as_text : Value → Result String
as_text (str s) = ok s
as_text _ = panic

abbrev pub as_list : Value → Result (List Value)
as_list (list vs) = ok (values vs)
as_list _ = panic

abbrev pub as_object : Value → Result (Dict Value)
as_object (object fs) = ok (fields fs)
as_object _ = panic

-- x, ok := v.([]interface{})
abbrev pub list_of : Value → Option (List Value)
list_of (list vs) = some (values vs)
list_of _ = none

-- A lookup m[k] in an expression gives nil where the key is missing.
abbrev pub or_nil : Option Value → Value
or_nil none = null
or_nil (some v) = v

pub record CassandraEnvOptions : Type 0 where
  pub malloc_arena_max : ℤ
  pub heap_dump_dir : String
  pub additional_opts : List String

pub record ConfigOverrides : Type 0 where
  pub cass_yaml : Dict Value
  pub server_options : Dict Value
  pub server_options11 : Dict Value
  pub server_options17 : Dict Value
  pub server_options21 : Dict Value
  pub cassandra_env : CassandraEnvOptions

pub record ClusterInfo : Type 0 where
  pub name : String
  pub seeds : String

pub record DatacenterInfo : Type 0 where
  pub name : String

-- `overrides` is the embedded ConfigOverrides.
pub record ConfigInput : Type 0 where
  pub cluster_info : ClusterInfo
  pub datacenter_info : DatacenterInfo
  pub sidecar_yaml : Dict Value
  pub overrides : ConfigOverrides
  pub pod_overrides : Dict ConfigOverrides

pub record NodeInfo : Type 0 where
  pub name : String
  pub rack : String
  pub listen_ip : Option Ip
  pub broadcast_ip : Option Ip
  pub rpc_ip : Option Ip

-- IP.String, which is "<nil>" for a nil address.
abbrev pub ip_text : Option Ip → String
ip_text none = "<nil>"
ip_text (some ip) = ip.text

abbrev pub default_g1_settings : List String
default_g1_settings =
    "-XX:+UseG1GC" ∷ "-XX:+ParallelRefProcEnabled" ∷ "-XX:MaxTenuringThreshold=1"
    ∷ "-XX:G1HeapRegionSize=16m" ∷ "-XX:G1RSetUpdatingPauseTimePercent=5"
    ∷ "-XX:MaxGCPauseMillis=300" ∷ "-XX:InitiatingHeapOccupancyPercent=70" ∷ []

abbrev pub default_cms_settings : List String
default_cms_settings =
    "-XX:+UseConcMarkSweepGC" ∷ "-XX:+CMSParallelRemarkEnabled" ∷ "-XX:SurvivorRatio=8"
    ∷ "-XX:MaxTenuringThreshold=1" ∷ "-XX:CMSInitiatingOccupancyFraction=75"
    ∷ "-XX:+UseCMSInitiatingOccupancyOnly" ∷ "-XX:CMSWaitDuration=10000"
    ∷ "-XX:+CMSParallelInitialMarkEnabled" ∷ "-XX:+CMSEdenChunksRecordAlways"
    ∷ "-XX:+CMSClassUnloadingEnabled" ∷ []
