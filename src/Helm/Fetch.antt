-- ===== src/Helm/Fetch.antt =====
-- pkg/helmutil/fetch.go: charts are downloaded and unpacked, and releases are read, installed and
-- removed.
use k8ssandra_client.Common.{
  String, Bool, true, Option, none, some, List, [], ◌∷◌, Result, ok, err, panic, message,
  has_prefix, is_positive, ℤ, bind, if◌then◌else◌,
}
use k8ssandra_client.Common.Exec.{Exec, pure, raise, lift, ◌>>=◌, ◌>>◌}
use k8ssandra_client.Common.Paths.{join_path}
use k8ssandra_client.Helm.Cache.{FileSystem, get_cache_dir, create_if_not_exists_dir}

-- What the functions call of Helm for a chart: NewChartRepository, DownloadIndexFile and
-- LoadIndexFile, the URLs of a version in an index, ResolveReferenceURL, os.MkdirTemp, DownloadTo and
-- ExpandFile.
pub record Downloader (W Repo Index : Type 0) : Type 0 where
  pub new_chart_repository : String → String → Exec W Repo
  pub download_index_file : Repo → Exec W String
  pub load_index_file : String → Exec W Index
  pub get_urls : Index → String → String → Result (List String)
  pub resolve_reference_url : String → String → Result String
  pub mkdir_temp : Exec W String
  pub download_to : String → String → String → Exec W String
  pub expand_file : String → String → Exec W (Unit {0})

-- cv.URLs[0]
abbrev pub first_url : List String → Result String
first_url [] = panic
first_url (url ∷ urls) = ok url

module _ {W Repo Index : Type 0} (fs : FileSystem W) (d : Downloader W Repo Index) where
  -- The steps of the download, after the test on the URL.
  unfoldable pub download_http : String → String → String → String → Exec W String
  download_http repo_name repo_url chart_name chart_version = do
    r ← d.new_chart_repository repo_name repo_url
    file ← d.download_index_file r
    index ← d.load_index_file file
    urls ← lift (d.get_urls index chart_name chart_version)
    first ← lift (first_url urls)
    url ← lift (d.resolve_reference_url repo_url first)
    dir ← d.mkdir_temp
    d.download_to url chart_version dir

  unfoldable pub download_chart_release : String → String → String → String → Exec W String
  download_chart_release repo_name repo_url chart_name chart_version =
      if has_prefix repo_url "oci://"
      then raise (message "OCI registry support is not implemented in this function")
      else download_http repo_name repo_url chart_name chart_version

  unfoldable pub extract_chart_release : String → String → String → String → Exec W String
  extract_chart_release saved repo_name chart_name chart_version = do
    extract_dir ← get_cache_dir fs repo_name (join_path chart_name chart_version)
    _ ← create_if_not_exists_dir fs extract_dir
    d.expand_file extract_dir saved
    pure extract_dir

  unfoldable pub get_chart_target_dir : String → String → Exec W String
  get_chart_target_dir repo_name chart_name = get_cache_dir fs repo_name chart_name

-- releaseiface.Releaser, by the cases of the type switch.
pub data Releaser (R : Type 0) : Type 0 where
  pointer : R → Releaser R
  value : R → Releaser R
  unsupported : Releaser R

unfoldable pub legacy_release : {R : Type 0} → Releaser R → Result R
legacy_release (pointer r) = ok r
legacy_release (value r) = ok r
legacy_release unsupported = err (message "unsupported Helm release type")

-- The settings of action.Install.
pub record InstallAction : Type 0 where
  pub release_name : String
  pub namespace : String
  pub create_namespace : Bool
  pub rollback_on_failure : Bool
  pub status_watcher : Bool
  pub timeout : Option ℤ
  pub skip_crds : Bool
  pub devel : Bool
  pub version : String

-- Helm's actions on releases, and the loader of a chart. `all_namespaces` is of action.List.
pub record Actions (W R Chart Values Response : Type 0) : Type 0 where
  pub get : String → Exec W (Releaser R)
  pub list : Bool → Exec W (List (Releaser R))
  pub load : String → Exec W Chart
  pub install : InstallAction → Chart → Values → Exec W (Releaser R)
  pub uninstall : String → Exec W Response

abbrev pub legacy_releases : {R : Type 0} → List (Releaser R) → Result (List R)
legacy_releases [] = ok []
legacy_releases (r ∷ rs) =
    bind (legacy_release r) λ first. bind (legacy_releases rs) λ others. ok (first ∷ others)

unfoldable pub install_action : String → String → Bool → Bool → ℤ → InstallAction
install_action release_name namespace devel skip_crds timeout = record {
  release_name = release_name;
  namespace = namespace;
  create_namespace = true;
  rollback_on_failure = true;
  status_watcher = true;
  timeout = if is_positive timeout then some timeout else none;
  skip_crds = skip_crds;
  devel = devel;
  version = if devel then ">0.0.0.0" else "";
}

module _ {W R Chart Values Response : Type 0} (actions : Actions W R Chart Values Response) where
  unfoldable pub release : String → Exec W R
  release release_name = do r ← actions.get release_name; lift (legacy_release r)

  unfoldable pub list_installations : Exec W (List R)
  list_installations = do rs ← actions.list true; lift (legacy_releases rs)

  unfoldable pub install : String → String → String → Values → Bool → Bool → ℤ → Exec W R
  install release_name path namespace values devel skip_crds timeout = do
    chart ← actions.load path
    r ← actions.install (install_action release_name namespace devel skip_crds timeout) chart values
    lift (legacy_release r)

  unfoldable pub uninstall : String → Exec W Response
  uninstall release_name = actions.uninstall release_name

  -- ChartVersion of release.go, with the chart of a release.
  unfoldable pub chart_version : (R → Chart) → String → Exec W Chart
  chart_version chart_of release_name = do r ← release release_name; pure (chart_of r)
