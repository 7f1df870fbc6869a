-- ===== src/Config/Tests/Data.antt =====
-- A definitions parser and what the runs of the options compute with.
use k8ssandra_client.Common.{[], none, lookup, insert}
use k8ssandra_client.Config.Gc.{
  gc_option_mapping, detect_garbage_collector, filter_gc_options, get_gc_options, mentions_gc,
}
use k8ssandra_client.Config.Format.{format_value}
use k8ssandra_client.Config.Jvm.{
  Definitions, options_filename_to_map, target_options, current_options, server_jvm_options,
}
use k8ssandra_client.Config.Jvm.Merging.{add_current}
use k8ssandra_client.Config.Jvm.Options.{
  merge_options, additional_lines, option_lines, texts_of, copy_entries,
}
use k8ssandra_client.Config.Jvm.Version.{jvm_version, is_server_options}

-- All that a run of the options computes with.
unfoldable pub jvm : Unit {0}
unfolding server_jvm_options target_options current_options merge_options additional_lines
    option_lines options_filename_to_map add_current detect_garbage_collector filter_gc_options
    get_gc_options mentions_gc format_value is_server_options jvm_version lookup insert texts_of
    copy_entries
jvm = tt

-- A definitions parser with no table and no prefix.
abbrev pub plain : Definitions
plain = record {
  server_prefix = [];
  server11_prefix = [];
  prefix_of = λ s. none;
  gc_flags = gc_option_mapping;
  range_order = λ m. m;
}
