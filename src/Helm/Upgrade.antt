-- ===== src/Helm/Upgrade.antt =====
-- Upgrade of pkg/helmutil/crds.go from its start, and cmd/kubectl-k8ssandra/helm/crds.go, which calls
-- it.
use k8ssandra_client.Common.{
  String, Bool, true, false, ◌||◌, List, [], ◌∷◌, ◌++◌, Result, ok, err, panic, message,
  is_not_exist, concat, ◌==◌, ◌≡◌, sym, ap, ◌∙◌, if◌then◌else◌,
}
use k8ssandra_client.Common.Exec.{Exec, pure, raise, lift, continue, ◌>>=◌, ◌>>◌}
use k8ssandra_client.Helm.Charts.{Object, Files, find_crd_dirs, filter_charts}
use k8ssandra_client.Helm.Crds.{Definition, CrdClient, wrap, upgrade_crds}
use k8ssandra_client.Helm.Cache.{FileSystem}
use k8ssandra_client.Helm.Fetch.{
  Downloader, download_chart_release, extract_chart_release, get_chart_target_dir,
}

pub record Upgrader : Type 0 where
  pub repo_name : String
  pub repo_url : String
  pub chart_name : String
  pub sub_charts : List String

unfoldable pub new_upgrader : String → String → String → List String → Upgrader
new_upgrader repo_name repo_url chart_name sub_charts = record {
  repo_name = repo_name;
  repo_url = repo_url;
  chart_name = chart_name;
  sub_charts = sub_charts;
}

module _ {W Repo Index : Type 0} (fs : FileSystem W) (downloader : Downloader W Repo Index) where
  unfoldable pub download : Upgrader → String → Exec W String
  download u version = do
    saved ← download_chart_release fs downloader u.repo_name u.repo_url u.chart_name version
    extract_chart_release fs downloader saved u.repo_name u.chart_name version

  -- What the state of the chart's directory leads to.
  unfoldable pub after_stat : Upgrader → String → String → Result Bool × W → Result String × W
  after_stat u version dir (ok true, w) = (ok dir, w)
  after_stat u version dir (ok false, w) =
      (err (message (concat ("chart release is not a directory: " ∷ dir ∷ []))), w)
  after_stat u version dir (err e, w) = if is_not_exist e then download u version w else (err e, w)
  after_stat u version dir (panic, w) = (panic, w)

  unfoldable pub chart_dir : Upgrader → String → Exec W String
  chart_dir u version = do
    dir ← get_chart_target_dir fs downloader u.repo_name u.chart_name
    λ w. after_stat u version dir (fs.stat dir w)

  cached :
      (u : Upgrader) (version dir : String) (w w1 w2 : W)
      → get_chart_target_dir fs downloader u.repo_name u.chart_name w ≡ (ok dir, w1)
      → fs.stat dir w1 ≡ (ok true, w2)
      → chart_dir u version w ≡ (ok dir, w2)
  unfolding chart_dir after_stat
  cached u version dir w w1 w2 found there =
      ap (λ (r : Result String × W). continue r.0 (λ d v. after_stat u version d (fs.stat d v)) r.1)
        found
      ∙ ap (after_stat u version dir) there

module _ {W C : Type 0} (files : Files W C) where
  unfoldable pub parse_chart_crds : String → Exec W (List (Object C))
  parse_chart_crds dir =
      wrap "failed to parse CustomResourceDefinition directory " dir
        (filter_charts files dir ("CustomResourceDefinition" ∷ []))

  unfoldable pub parse_all : List String → Exec W (List (Object C))
  parse_all [] = pure []
  parse_all (path ∷ paths) = do
    crds ← parse_chart_crds path
    others ← parse_all paths
    pure (crds ++ others)

  unfoldable pub find_paths : String → List String → Exec W (List String)
  find_paths dir sub_charts w =
      let (found, w') = find_crd_dirs files dir sub_charts w in (ok found, w')

module _ {W Repo Index C D : Type 0} (fs : FileSystem W) (downloader : Downloader W Repo Index)
    (files : Files W C) (client : CrdClient W C D) where
  unfoldable pub upgrade : Upgrader → String → Exec W (List (Object C))
  upgrade u version = do
    dir ← chart_dir fs downloader u version
    paths ← find_paths files dir u.sub_charts
    crds ← parse_all files paths
    upgrade_crds client crds

  -- Where the cache has the directory of the chart, Upgrade does the same for every version that
  -- it is asked for.
  pub upgrade-version :
      (u : Upgrader) (version other dir : String) (w w1 w2 : W)
      → get_chart_target_dir fs downloader u.repo_name u.chart_name w ≡ (ok dir, w1)
      → fs.stat dir w1 ≡ (ok true, w2)
      → upgrade u version w ≡ upgrade u other w
  unfolding upgrade
  upgrade-version u version other dir w w1 w2 found there =
      ap
        (λ (r : Result String × W).
          continue r.0
            (λ d. find_paths files d u.sub_charts >>= λ paths.
              parse_all files paths >>= λ crds. upgrade_crds client crds)
            r.1)
        (cached fs downloader u version dir w w1 w2 found there
          ∙ sym (cached fs downloader u other dir w w1 w2 found there))

pub record UpgradeOptions : Type 0 where
  pub chart_name : String
  pub chart_version : String
  pub chart_repo : String
  pub repo_url : String
  pub download : Bool
  pub chart_list : List String

-- `namespace` reads the namespace of the kubeconfig.
unfoldable pub complete : {W : Type 0} → Exec W String → UpgradeOptions → Exec W UpgradeOptions
complete namespace o =
    if o.chart_name == "" || o.chart_version == ""
    then raise (message "not enough parameters, requires chartName and chartVersion")
    else (do
      _ ← namespace
      pure (record o {
        repo_url = if o.repo_url == "" then "https://helm.k8ssandra.io/" else o.repo_url;
        chart_repo = if o.chart_repo == "" then "k8ssandra" else o.chart_repo;
      }))

module _ {W C D : Type 0} where
  -- A NamespacedClient without a client, whose calls panic.
  unfoldable pub nil_client : (Object C → Result (Definition D)) → CrdClient W C D
  nil_client from_unstructured = record {
    get = λ name. lift panic;
    create = λ obj. lift panic;
    update = λ obj. lift panic;
    update_status = λ d. lift panic;
    from_unstructured = from_unstructured;
  }

module _ {W Repo Index C D : Type 0} (fs : FileSystem W) (downloader : Downloader W Repo Index)
    (files : Files W C) where
  -- `rest_config` is ToRESTConfig, and `connect` the client for the namespace, which is not made
  -- where only the chart is to be downloaded; the converter is that of the Kubernetes library.
  unfoldable pub run :
      Exec W (Unit {0})
      → Exec W (CrdClient W C D)
      → (Object C → Result (Definition D))
      → UpgradeOptions
      → Exec W (List (Object C))
  run rest_config connect from_unstructured o = do
    rest_config
    client ← if o.download then pure (nil_client from_unstructured) else connect
    upgrade fs downloader files client
        (new_upgrader o.chart_repo o.repo_url o.chart_name o.chart_list) o.chart_version
