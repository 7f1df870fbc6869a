-- ===== src/Helm/Charts.antt =====
-- The chart's files: findCRDDirs of pkg/helmutil/crds.go and FilterCharts of pkg/helmutil/parse.go.
use k8ssandra_client.Common.{
  String, Bool, true, false, not, ◌||◌, ◌&&◌, Option, none, some, List, [], ◌∷◌, ◌++◌, any, Result,
  ok, Error, ◌==◌, if◌then◌else◌,
}
use k8ssandra_client.Common.Exec.{Exec, pure, raise, lift, ◌>>=◌}
use k8ssandra_client.Common.Paths.{clean, split_slash}

-- unstructured.Unstructured: the name, the resource version and the rest, which only the API's
-- converters read.
pub record Object (C : Type 0) : Type 0 where
  pub name : String
  pub resource_version : String
  pub content : C

-- The parts of a path from the last one on.
abbrev pub reversed : List String → List String → List String
reversed [] acc = acc
reversed (p ∷ ps) acc = reversed ps (p ∷ acc)

unfoldable pub is_listed : List String → String → Bool
is_listed charts name = any (λ c. c == name) charts

abbrev all_sub_charts : String
all_sub_charts = "_"

-- The decision on a directory, by the parts of its path from the last one on: at least four parts
-- are looked at for a "charts" directory above the chart's name. The chart's directory is absolute, so
-- that a path has two parts at least.
unfoldable pub is_chart_dir : List String → List String → Bool
is_chart_dir sub_charts (crds ∷ name ∷ above ∷ root ∷ rest) =
    crds == "crds"
    && (not (above == "charts") || is_listed sub_charts all_sub_charts || is_listed sub_charts name)
is_chart_dir sub_charts (crds ∷ rest) = crds == "crds"
is_chart_dir sub_charts [] = false

unfoldable pub chart_filter : List String → String × Bool → Bool
chart_filter sub_charts (path, is_dir) =
    is_dir && is_chart_dir sub_charts (reversed (split_slash (clean path)) [])

-- What the functions call: filepath.Walk, as the entries that it meets with whether they are
-- directories and the error that it ends with; os.ReadFile; the YAML reader; and the decoder, with
-- the kind of an object.
pub record Files (W C : Type 0) : Type 0 where
  pub walk : String → W → (List (String × Bool) × Option Error) × W
  pub read_file : String → Exec W String
  pub yaml_docs : String → Result (List String)
  pub decode : String → Option (String × Object C)

abbrev pub paths_of : (String × Bool → Bool) → List (String × Bool) → List String
paths_of keep [] = []
paths_of keep (x ∷ xs) = if keep x then x.0 ∷ paths_of keep xs else paths_of keep xs

-- A document that cannot be decoded or is of another kind is passed over.
unfoldable pub add_object :
    {C : Type 0} → List String → Option (String × Object C) → List (Object C) → List (Object C)
add_object types none others = others
add_object types (some (kind, o)) others = if is_listed types kind then o ∷ others else others

unfoldable pub objects_of :
    {C : Type 0}
    → (String → Option (String × Object C))
    → List String
    → List String
    → List (Object C)
objects_of decode types [] = []
objects_of decode types (doc ∷ docs) = add_object types (decode doc) (objects_of decode types docs)

module _ {W C : Type 0} (files : Files W C) where
  -- The objects of one file; an empty file has none.
  unfoldable pub file_objects : List String → String × Bool → Exec W (List (Object C))
  file_objects types (path, true) = pure []
  file_objects types (path, false) = do
    text ← files.read_file path
    docs ← lift (if text == "" then ok [] else files.yaml_docs text)
    pure (objects_of files.decode types docs)

  unfoldable pub visit :
      List String → Option Error → List (String × Bool) → Exec W (List (Object C))
  visit types none [] = pure []
  visit types (some e) [] = raise e
  visit types failure (entry ∷ entries) = do
    found ← file_objects types entry
    others ← visit types failure entries
    pure (found ++ others)

  unfoldable pub filter_charts : String → List String → Exec W (List (Object C))
  filter_charts dir types w =
      let ((entries, failure), w') = files.walk dir w in visit types failure entries w'

  -- The caller drops the error of the walk and keeps the directories found before it.
  unfoldable pub find_crd_dirs : String → List String → W → List String × W
  find_crd_dirs chart_dir sub_charts w =
      let ((entries, failure), w') = files.walk chart_dir w in
      (paths_of (chart_filter sub_charts) entries, w')
