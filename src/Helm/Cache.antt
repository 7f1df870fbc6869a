-- ===== src/Helm/Cache.antt =====
-- pkg/util/fs.go: the directories of the plugin.
use k8ssandra_client.Common.{
  String, Bool, true, false, Result, ok, err, panic, is_not_exist, if◌then◌else◌,
}
use k8ssandra_client.Common.Exec.{Exec, pure, ◌>>=◌}
use k8ssandra_client.Common.Paths.{join_path}

-- os.UserCacheDir, os.UserConfigDir, os.Stat as whether the path is a directory, and os.MkdirAll.
pub record FileSystem (W : Type 0) : Type 0 where
  pub user_cache_dir : Exec W String
  pub user_config_dir : Exec W String
  pub stat : String → Exec W Bool
  pub mkdir_all : String → Exec W (Unit {0})

module _ {W : Type 0} (fs : FileSystem W) where
  unfoldable pub get_cache_dir : String → String → Exec W String
  get_cache_dir repo chart = do
    user_dir ← fs.user_cache_dir
    pure (join_path (join_path user_dir repo) chart)

  -- Every error of os.Stat but the one of a missing file is passed over.
  unfoldable pub create_where_missing : String → Result Bool × W → Result String × W
  create_where_missing dir (ok is_dir, w) = (ok dir, w)
  create_where_missing dir (err e, w) =
      if is_not_exist e then (fs.mkdir_all dir >>= λ u. pure dir) w else (ok dir, w)
  create_where_missing dir (panic, w) = (panic, w)

  unfoldable pub create_if_not_exists_dir : String → Exec W String
  create_if_not_exists_dir dir w = create_where_missing dir (fs.stat dir w)

  unfoldable pub get_config_dir : String → String → Exec W String
  get_config_dir repo chart = do
    user_dir ← fs.user_config_dir
    create_if_not_exists_dir (join_path (join_path user_dir repo) chart)

  unfoldable pub found_file : Result Bool × W → Result Bool × W
  found_file (ok is_dir, w) = (ok true, w)
  found_file (err e, w) = if is_not_exist e then (ok false, w) else (err e, w)
  found_file (panic, w) = (panic, w)

  unfoldable pub verify_file_exists : String → Exec W Bool
  verify_file_exists path w = found_file (fs.stat path w)
