-- ===== src/Helm/Release.antt =====
-- MergeValuesFile, SetValues and UpgradeValues of pkg/helmutil/release.go.
use k8ssandra_client.Common.{String, ℤ, Bool, Result}
use k8ssandra_client.Common.Exec.{Exec, pure, lift, ◌>>=◌, ◌>>◌}
use k8ssandra_client.Common.Paths.{join_path}
use k8ssandra_client.Helm.Nodes.{Node}
use k8ssandra_client.Helm.Values.{recursive_merge}
use k8ssandra_client.Helm.Cache.{FileSystem, get_cache_dir}
use k8ssandra_client.Helm.Fetch.{Releaser, legacy_release}

-- What the functions call: os.Open with io.ReadAll, os.CreateTemp and a write to the file that it
-- made, which is known by its path; Helm's values of a release; and the YAML library, for a node, for
-- the values, and for an int.
pub record ValuesLib (W Values : Type 0) : Type 0 where
  pub read_file : String → Exec W String
  pub create_temp : String → String → Exec W String
  pub write : String → String → Exec W (Unit {0})
  pub get_values : String → Exec W Values
  pub unmarshal_node : String → Result Node
  pub marshal_node : Node → Result String
  pub marshal_values : Values → Result String
  pub unmarshal_values : String → Result Values
  pub unmarshal_int : String → Result ℤ

module _ {W Values : Type 0} (fs : FileSystem W) (lib : ValuesLib W Values) where
  unfoldable pub set_values : String → Exec W Values
  set_values release_name = lib.get_values release_name

  -- The path of the file that holds the merged values.
  unfoldable pub merge_values_file : String → String → String → Exec W String
  merge_values_file chart_dir chart_name release_name = do
    yaml_input ← lib.read_file (join_path (join_path chart_dir chart_name) "values.yaml")
    cache_dir ← get_cache_dir fs "helm" "values"
    output_file ← lib.create_temp cache_dir "*.yaml"
    value ← lift (lib.unmarshal_node yaml_input)
    values ← set_values release_name
    encode_step ← lift (lib.marshal_values values)
    overrides ← lift (lib.unmarshal_node encode_step)
    merged ← lift (recursive_merge lib.marshal_node lib.unmarshal_int overrides value)
    written_yaml ← lift (lib.marshal_node merged)
    lib.write output_file written_yaml
    pure output_file

-- action.Upgrade with its flag ReuseValues, the loader of a chart, and the test of its dependencies,
-- which has none to test where the chart has none.
pub record UpgradeAction (W Chart Values R : Type 0) : Type 0 where
  pub load : String → Exec W Chart
  pub check_dependencies : Chart → Result (Unit {0})
  pub run : Bool → String → Chart → Values → Exec W (Releaser R)

module _ {W Chart Values R : Type 0} (lib : ValuesLib W Values)
    (action : UpgradeAction W Chart Values R) where
  -- `read_input` is io.ReadAll of the open file of values.
  unfoldable pub upgrade_values : String → String → String → Exec W String → Exec W R
  upgrade_values chart_dir chart_name release_name read_input = do
    ch ← action.load (join_path chart_dir chart_name)
    lift (action.check_dependencies ch)
    text ← read_input
    values ← lift (lib.unmarshal_values text)
    upgraded ← action.run Bool.true release_name ch values
    lift (legacy_release upgraded)
