-- ===== src/Config/Format.antt =====
-- fmt.Sprintf with %v, on the values that the options hold.
use Prim.Native.Nat.{Ordering}
use Prim.Native.String.{compare}
use k8ssandra_client.Common.{
  String, Bool, true, false, List, [], ◌∷◌, Dict, concat, decimal, if◌then◌else◌,
}
use k8ssandra_client.Config.Types.{
  Value, Values, Fields, null, bool, number, int, str, address, list, object, nil, cons, end, field,
  ip_text,
}

abbrev text_leb : String → String → Bool
text_leb s t = elim (compare s t) [ Ordering.gt ↦ false | _ ↦ true ]

-- fmt prints the entries of a map in the order of their keys.
sort_entry : String × String → Dict String → Dict String
sort_entry e [] = e ∷ []
sort_entry e (f ∷ es) = if text_leb e.0 f.0 then e ∷ f ∷ es else f ∷ sort_entry e es

sort_entries : Dict String → Dict String
unfolding sort_entry
sort_entries [] = []
sort_entries (e ∷ es) = sort_entry e (sort_entries es)

abbrev pub join : String → List String → String
join sep [] = ""
join sep (s ∷ []) = s
join sep (s ∷ t ∷ ss) = concat (s ∷ sep ∷ join sep (t ∷ ss) ∷ [])

abbrev entry_texts : Dict String → List String
entry_texts [] = []
entry_texts ((k, v) ∷ es) = concat (k ∷ ":" ∷ v ∷ []) ∷ entry_texts es

abbrev bool_text : Bool → String
bool_text true = "true"
bool_text false = "false"

unfoldable mutual
  unfolding sort_entries decimal

  pub format_value : Value → String
  format_value null = "<nil>"
  format_value (bool b) = bool_text b
  format_value (number s) = s
  format_value (int n) = decimal n
  format_value (str s) = s
  format_value (address ip) = ip_text ip
  format_value (list vs) = concat ("[" ∷ join " " (format_values vs) ∷ "]" ∷ [])
  format_value (object fs) =
      concat ("map[" ∷ join " " (entry_texts (sort_entries (format_fields fs))) ∷ "]" ∷ [])

  pub format_values : Values → List String
  format_values nil = []
  format_values (cons v vs) = format_value v ∷ format_values vs

  pub format_fields : Fields → Dict String
  format_fields end = []
  format_fields (field k v fs) = (k, format_value v) ∷ format_fields fs
