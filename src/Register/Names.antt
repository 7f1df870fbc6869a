-- ===== src/Register/Names.antt =====
-- pkg/registration/sanitize_strings.go: a text is made into a name that Kubernetes accepts. What
-- NewRegistrationExecutorFromRegisterClusterCmd of cmd/kubectl-k8ssandra/register/command.go takes
-- from the flags.
use Prim.Native.Char.{Char, code}
use k8ssandra_client.Common.{
  ℕ, zero, suc, String, Bool, not, ◌||◌, ◌&&◌, List, [], ◌∷◌, concat, nat_eq, leb, ◌==◌,
  if◌then◌else◌,
}
use k8ssandra_client.Tasks.Names.{text_length}
use k8ssandra_client.Register.Cluster.{RegistrationExecutor}

-- [a-z] and [a-z0-9]
abbrev pub is_letter : Char → Bool
is_letter c = leb b'a' (code c) && leb (code c) b'z'

abbrev pub is_alnum : Char → Bool
is_alnum c = is_letter c || (leb b'0' (code c) && leb (code c) b'9')

-- [-a-z0-9]
abbrev pub is_part : Char → Bool
is_part c = is_alnum c || nat_eq (code c) b'-'

-- ([-a-z0-9]*[a-z0-9])? at the start of a text: the longest part that ends in [a-z0-9].
unfoldable pub longest_tail : String → String
longest_tail String.[] = ""
longest_tail (String.◌∷◌ c s) =
    let rest = longest_tail s in
    if not (is_part c) then "" else if is_alnum c || not (rest == "") then String.◌∷◌ c rest else ""

-- regexp.FindAllString of "[a-z]([-a-z0-9]*[a-z0-9])?": the matches from the left on. The number is
-- what is left to skip of the last match.
unfoldable pub find_all : ℕ → String → List String
find_all n String.[] = []
find_all (suc n) (String.◌∷◌ c s) = find_all n s
find_all zero (String.◌∷◌ c s) =
    let more = find_all (text_length (longest_tail s)) s in
    let others = find_all 0 s in
    if is_letter c then String.◌∷◌ c (longest_tail s) ∷ more else others

-- strings.ReplaceAll(input, "_", "-"), and strings.ToLower by the table of unicode.ToLower.
abbrev pub with_dashes : String → String
with_dashes String.[] = ""
with_dashes (String.◌∷◌ c s) =
    let rest = with_dashes s in
    if nat_eq (code c) b'_' then String.◌∷◌ "-" rest else String.◌∷◌ c rest

abbrev pub to_lower : (Char → Char) → String → String
to_lower lower String.[] = ""
to_lower lower (String.◌∷◌ c s) = String.◌∷◌ (lower c) (to_lower lower s)

-- `is_dns1035_label` says that validation.IsDNS1035Label has no objection.
unfoldable pub cleanup_for_kubernetes : (String → Bool) → (Char → Char) → String → String
cleanup_for_kubernetes is_dns1035_label lower input =
    if not (is_dns1035_label input)
    then concat (find_all 0 (with_dashes (to_lower lower input)))
    else input

-- `flag` is cmd.Flag(name).Value.String().
unfoldable pub new_registration_executor_from_register_cluster_cmd :
    (String → Bool) → (Char → Char) → (String → String) → RegistrationExecutor
new_registration_executor_from_register_cluster_cmd is_dns1035_label lower flag = record {
  destination_name =
      if flag "destination-name" == ""
      then cleanup_for_kubernetes is_dns1035_label lower (flag "source-context")
      else flag "destination-name";
  source_kubeconfig = flag "source-kubeconfig";
  dest_kubeconfig = flag "dest-kubeconfig";
  source_context = flag "source-context";
  dest_context = flag "dest-context";
  source_namespace = flag "source-namespace";
  dest_namespace = flag "dest-namespace";
  service_account = flag "serviceaccount-name";
  override_source_ip = flag "override-src-ip";
  override_source_port = flag "override-src-port";
}
