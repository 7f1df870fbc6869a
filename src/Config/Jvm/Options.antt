-- ===== src/Config/Jvm/Options.antt =====
-- createServerJVMOptions of pkg/config/builder.go up to the loop `curOptions`: the options of the
-- node with its overrides, and the lines that they ask for.
pub mod Laws
use k8ssandra_client.Common.{
  ℕ, String, Bool, true, false, not, ◌&&◌, ◌||◌, Option, none, some, List, [], ◌∷◌, ◌++◌, Dict,
  lookup, insert, Result, ok, err, message, ◌>>=◌, ◌==◌, leb, length, if◌then◌else◌,
}
use k8ssandra_client.Config.Types.{
  Value, null, str, list, to_values, as_text, as_list, list_of, or_nil,
}
use k8ssandra_client.Config.Format.{format_value}
use k8ssandra_client.Config.Gc.{detect_garbage_collector, filter_gc_options}

-- The keys that the loops over the options skip.
abbrev pub is_special : String → Bool
is_special k = k == "additional-jvm-opts" || k == "garbage_collector"

-- `for k, v := range source { target[k] = v }`, leaving out the keys to skip.
unfoldable pub copy_entries {ℓ} : {V : Type ℓ} → (String → Bool) → Dict V → Dict V → Dict V
copy_entries skip [] target = target
copy_entries skip ((k, v) ∷ source) target =
    copy_entries skip source (if skip k then target else insert k v target)

-- append(addOptsSlice, overrideAddOptsSlice...), if both are lists.
abbrev join_lists : Option (List Value) → Option (List Value) → Result Value
join_lists (some base) (some override) = ok (list (to_values (base ++ override)))
join_lists _ _ = err (message "additional-jvm-opts must be a list of strings")

-- additional-jvm-opts of the pod's overrides go behind those of the node.
abbrev merge_additional : Option Value → Option Value → Dict Value → Result (Dict Value)
merge_additional none base options = ok options
merge_additional (some override) none options = ok (insert "additional-jvm-opts" override options)
merge_additional (some override) (some base) options = do
  joined ← join_lists (list_of base) (list_of override)
  ok (insert "additional-jvm-opts" joined options)

unfoldable pub merge_options : Dict Value → Dict Value → Result (Dict Value)
unfolding copy_entries
merge_options base override =
    let options = copy_entries (λ _. false) base [] in
    do
      options' ←
          merge_additional (lookup "additional-jvm-opts" override)
            (lookup "additional-jvm-opts" options) options
      ok (copy_entries is_special override options')

-- `for _, v := range opts { targetOptions = append(targetOptions, v.(string)) }`
unfoldable pub texts_of : List Value → Result (List String)
texts_of [] = ok []
texts_of (v ∷ vs) = do s ← as_text v; ss ← texts_of vs; ok (s ∷ ss)

abbrev is_nil : Value → Bool
is_nil null = true
is_nil _ = false

-- A collector that the additional options name becomes `garbage_collector`, if none is set.
abbrev take_collector :
    Dict String → Dict Value → List Value → String → Result (Dict Value × List String)
take_collector flags options opts gc_name =
    if not (gc_name == "") && is_nil (or_nil (lookup "garbage_collector" options))
    then (do
      filtered ← filter_gc_options flags opts
      lines ← texts_of filtered
      ok (insert "garbage_collector" (str gc_name) options, lines))
    else (do lines ← texts_of opts; ok (options, lines))

abbrev additional_of : Dict String → Dict Value → Option Value → Result (Dict Value × List String)
additional_of flags options none = ok (options, [])
additional_of flags options (some add_opts) = do
  opts ← as_list add_opts
  gc_name ← detect_garbage_collector flags opts
  take_collector flags options opts gc_name

-- The options with the collector, and the lines of additional-jvm-opts. `flags` is
-- gcOptionMapping in the order of its range loops.
unfoldable pub additional_lines : Dict String → Dict Value → Result (Dict Value × List String)
unfolding texts_of
additional_lines flags options = additional_of flags options (lookup "additional-jvm-opts" options)

-- Metadata of the definitions parser: whether ValueType is TemplateValue, and Output.
pub record Metadata : Type 0 where
  pub is_template : Bool
  pub output : String → String

abbrev table_line : Option Metadata → Value → List String
table_line none v = []
table_line (some m) v = if m.is_template then [] else m.output (format_value v) ∷ []

-- The loop over the options, in the order of its range.
unfoldable pub option_lines : Dict Metadata → Dict Value → List String
option_lines table [] = []
option_lines table ((k, v) ∷ options) =
    (if is_special k then [] else table_line (lookup k table) v) ++ option_lines table options
