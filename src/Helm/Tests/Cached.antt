-- ===== src/Helm/Tests/Cached.antt =====
-- The theorem on the cached chart, for a machine whose cache has the chart's directory.
use k8ssandra_client.Common.{String, true, none, [], ok, err, message, not_found, ◌≡◌, refl}
use k8ssandra_client.Common.Paths.{join_path}
use k8ssandra_client.Helm.Charts.{Files}
use k8ssandra_client.Helm.Crds.{CrdClient}
use k8ssandra_client.Helm.Cache.{FileSystem, get_cache_dir}
use k8ssandra_client.Helm.Fetch.{Downloader, get_chart_target_dir}
use k8ssandra_client.Helm.Upgrade.{Upgrader, upgrade, upgrade-version}

-- The state counts nothing: every call succeeds or is refused.
abbrev State : Type 0
State = Unit

abbrev fs : FileSystem State
fs = record {
  user_cache_dir = λ w. (ok "/home/.cache", w);
  user_config_dir = λ w. (ok "/home/.config", w);
  stat = λ path w. (ok true, w);
  mkdir_all = λ path w. (ok tt, w);
}

abbrev offline : Downloader State String String
offline = record {
  new_chart_repository = λ name url w. (err (message "offline"), w);
  download_index_file = λ r w. (err (message "offline"), w);
  load_index_file = λ file w. (err (message "offline"), w);
  get_urls = λ index name version. ok [];
  resolve_reference_url = λ base url. ok url;
  mkdir_temp = λ w. (ok "/tmp", w);
  download_to = λ url version dir w. (err (message "offline"), w);
  expand_file = λ dir saved w. (ok tt, w);
}

abbrev files : Files State String
files = record {
  walk = λ dir w. (([], none), w);
  read_file = λ path w. (ok "", w);
  yaml_docs = λ text. ok [];
  decode = λ doc. none;
}

abbrev client : CrdClient State String String
client = record {
  get = λ name w. (err (not_found name), w);
  create = λ obj w. (ok obj, w);
  update = λ obj w. (ok obj, w);
  update_status = λ d w. (ok d, w);
  from_unstructured = λ obj. err (message "no definition");
}

abbrev upgrader : Upgrader
upgrader = record {
  repo_name = "k8ssandra";
  repo_url = "https://helm.k8ssandra.io/";
  chart_name = "k8ssandra-operator";
  sub_charts = [];
}

upgrade-version_example :
    upgrade fs offline files client upgrader "1.0.0" tt
    ≡ upgrade fs offline files client upgrader "2.0.0" tt
unfolding get_chart_target_dir get_cache_dir join_path
upgrade-version_example =
    upgrade-version fs offline files client upgrader "1.0.0" "2.0.0"
      (join_path (join_path "/home/.cache" "k8ssandra") "k8ssandra-operator") tt tt tt refl refl
