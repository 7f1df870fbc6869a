-- ===== src/Config/Jvm.antt =====
-- createServerJVMOptions of pkg/config/builder.go: the lines of one jvm*-server.options file, from
-- the options of the node and its pod and the lines of the base file.
pub mod Merging
pub mod Options
pub mod Version
pub mod Collectors
pub mod Laws
use k8ssandra_client.Common.{
  ℕ, String, Bool, Option, none, some, List, [], ◌∷◌, ◌++◌, Dict, lookup, Result, ok, ◌>>=◌,
  delete_func, ltb, length, if◌then◌else◌, ◌==◌,
}
use k8ssandra_client.Config.Types.{Value}
use k8ssandra_client.Config.Format.{format_value}
use k8ssandra_client.Config.Gc.{get_gc_options, mentions_gc}
use Merging.{add_current}
use Options.{Metadata, merge_options, additional_lines, option_lines}
use Version.{is_server_options, jvm_version}

-- What the program takes from the definitions parser: the tables of JVM options and the expression
-- for prefixes, as the function that gives the match in a text. And the order in which Go's range
-- loops meet the entries of gcOptionMapping and of the options.
pub record Definitions : Type 0 where
  pub server_prefix : Dict Metadata
  pub server11_prefix : Dict Metadata
  pub prefix_of : String → Option String
  pub gc_flags : Dict String
  pub range_order : Dict Value → Dict Value

module _ (defs : Definitions) where
  unfoldable pub options_filename_to_map : String → Dict Metadata
  options_filename_to_map filename =
      if filename == "jvm-server.options"
      then defs.server_prefix
      else if filename == "jvm11-server.options"
      then defs.server11_prefix
      else []

  -- `len(options) > 0`
  unfoldable pub target_options : String → Dict Value → Result (Dict Value × List String)
  unfolding options_filename_to_map
  target_options filename options =
      if ltb 0 (length options)
      then (do
        r ← additional_lines defs.gc_flags options
        ok (r.0, r.1 ++ option_lines (options_filename_to_map filename) (defs.range_order r.0)))
      else ok (options, [])

  abbrev with_collector : ℕ → Option Value → List String → List String
  with_collector version none current = current
  with_collector version (some gc) current =
      delete_func (mentions_gc version) current ++ get_gc_options (format_value gc) version

  -- The file's options, where a collector is set with the options of that one alone.
  unfoldable pub current_options : String → Dict Value → List String → List String
  current_options filename options current =
      if is_server_options filename
      then with_collector (jvm_version filename) (lookup "garbage_collector" options) current
      else current

  -- The lines that createServerJVMOptions writes; it writes no file where there are none.
  unfoldable pub server_jvm_options :
      Dict Value → Dict Value → String → List String → Result (List String)
  unfolding target_options current_options
  server_jvm_options base override filename current = do
    options ← merge_options base override
    t ← target_options filename options
    ok (add_current defs.prefix_of t.1 (current_options filename t.0 current))
