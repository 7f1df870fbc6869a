-- ===== src/Config/Jvm/Merging.antt =====
-- The loop `curOptions` of createServerJVMOptions, and readJvmServerOptions, over the file's text.
pub mod Laws
use k8ssandra_client.Common.{
  ℕ, zero, suc, String, Bool, true, false, not, ◌&&◌, Option, none, some, List, [], ◌∷◌, ◌++◌,
  Result, ok, ◌>>=◌, ◌==◌, has_prefix, index, take_text, trim_space, scan_lines, any, map, leb,
  if◌then◌else◌,
}

-- !strings.HasPrefix(line, "#") && len(line) > 0
abbrev pub is_option : String → Bool
is_option line = not (has_prefix line "#") && not (line == "")

abbrev pub options_of : List String → List String
options_of [] = []
options_of (l ∷ ls) =
    let rest = options_of ls in if is_option (trim_space l) then trim_space l ∷ rest else rest

-- readJvmServerOptions, from the text of a file that is there.
unfoldable pub read_options : String → Result (List String)
read_options text = do lines ← scan_lines text; ok (options_of lines)

-- `vc == vTc`, where both options are cut at "=" if both have one behind the first character.
abbrev cut_equal : String → String → Option ℕ → Option ℕ → Bool
cut_equal v target (some (suc i)) (some (suc j)) = take_text (suc i) v == take_text (suc j) target
cut_equal v target _ _ = v == target

unfoldable pub same_name : String → String → Bool
same_name v target = cut_equal v target (index b'=' v) (index b'=' target)

-- Suppressed by the alias prefix of the current option.
abbrev has_alias_prefix : Option String → String → Bool
has_alias_prefix none target = false
has_alias_prefix (some prefix) target = has_prefix target prefix

-- `prefix_of` is prefixRegexp.FindStringSubmatch, the regular expression of the definitions parser.
module _ (prefix_of : String → Option String) where
  -- One round of the inner loop: the current option `v` is dropped because of `target`.
  unfoldable pub overridden_by : String → String → Bool
  unfolding same_name
  overridden_by v target =
      if has_alias_prefix (prefix_of v) target then true else same_name v target

  -- `targets` grows while the loop runs.
  unfoldable pub add_current : List String → List String → List String
  unfolding overridden_by
  add_current targets [] = targets
  add_current targets (v ∷ current) =
      add_current (if any (overridden_by v) targets then targets else targets ++ v ∷ []) current
