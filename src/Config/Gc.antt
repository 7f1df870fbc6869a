-- ===== src/Config/Gc.antt =====
-- The garbage collector options of pkg/config/builder.go.
use k8ssandra_client.Common.{
  ℕ, String, Bool, List, [], ◌∷◌, ◌++◌, Dict, Result, ok, ◌>>=◌, ◌==◌, contains, any, ltb,
  if◌then◌else◌,
}
use k8ssandra_client.Config.Types.{Value, as_text, default_g1_settings, default_cms_settings}

abbrev pub supported_gcs : List String
supported_gcs = "G1GC" ∷ "CMS" ∷ "Shenandoah" ∷ "ZGC" ∷ []

abbrev pub gc_option_mapping : Dict String
gc_option_mapping =
    ("-XX:+UseG1GC", "G1GC")
    ∷ ("-XX:+UseConcMarkSweepGC", "CMS")
    ∷ ("-XX:+UseCMS", "CMS")
    ∷ ("-XX:+UseShenandoahGC", "Shenandoah")
    ∷ ("-XX:+UseZGC", "ZGC")
    ∷ []

-- The inner loop of detectGarbageCollector, over the entries of the mapping in their `range` order;
-- "" goes on with the next option.
abbrev pub gc_of_option : Dict String → String → String
gc_of_option [] opt = ""
gc_of_option ((flag, gc) ∷ flags) opt = if contains opt flag then gc else gc_of_option flags opt

-- `flags` is gcOptionMapping in the order of the range loops.
unfoldable pub detect_garbage_collector : Dict String → List Value → Result String
detect_garbage_collector flags [] = ok ""
detect_garbage_collector flags (opt ∷ opts) =
    let rest = detect_garbage_collector flags opts in
    do
      text ← as_text opt
      if gc_of_option flags text == "" then rest else ok (gc_of_option flags text)

abbrev pub is_gc_flag : Dict String → String → Bool
is_gc_flag flags opt = any (λ e. opt == e.0) flags

-- slices.DeleteFunc with a test that panics on what is no text.
unfoldable pub filter_gc_options : Dict String → List Value → Result (List Value)
filter_gc_options flags [] = ok []
filter_gc_options flags (opt ∷ opts) = do
  text ← as_text opt
  rest ← filter_gc_options flags opts
  ok (if is_gc_flag flags text then rest else opt ∷ rest)

unfoldable pub get_gc_options : String → ℕ → List String
get_gc_options gc_name jvm_major =
    if gc_name == "G1GC"
    then (if ltb jvm_major 17 then default_g1_settings else "-XX:+UseG1GC" ∷ [])
    else if gc_name == "CMS"
    then (if ltb jvm_major 17 then default_cms_settings else [])
    else if gc_name == "Shenandoah"
    then "-XX:+UseShenandoahGC" ∷ []
    else if gc_name == "ZGC"
    then (if ltb jvm_major 17 then "-XX:+UnlockExperimentalVMOptions" ∷ [] else [])
      ++ "-XX:+UseZGC" ∷ []
    else []

abbrev all_of : List String → ℕ → List String
all_of [] jvm_major = []
all_of (gc ∷ gcs) jvm_major = get_gc_options gc jvm_major ++ all_of gcs jvm_major

unfoldable pub get_all_gc_options : ℕ → List String
unfolding get_gc_options
get_all_gc_options jvm_major = all_of supported_gcs jvm_major

-- The test of the slices.DeleteFunc over the current options.
unfoldable pub mentions_gc : ℕ → String → Bool
unfolding get_all_gc_options
mentions_gc jvm_major s = any (λ opt. contains s opt) (get_all_gc_options jvm_major)
