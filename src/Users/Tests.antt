-- ===== src/Users/Tests.antt =====
-- The theorems on users, with a pod whose management API keeps the roles in a list.
use k8ssandra_client.Common.{
  eq_iff, String, Bool, true, false, none, List, [], ◌∷◌, ◌++◌, map, All, HasUniqueKeys, Dict,
  lookup, message, ok, err, ◌==◌, ◌≡◌, refl, arith, if◌then◌else◌,
}
use k8ssandra_client.Common.Exec.{Exec}
use k8ssandra_client.Common.Disk.{Disk, file}
use k8ssandra_client.Datacenter.Fetch.{CassandraDatacenter, Pod, condition_unknown}
use k8ssandra_client.Ui.Prompter.{key, esc, TextInput}
use k8ssandra_client.Ui.Focus.{IsTextInput}
use k8ssandra_client.Users.Secrets.{Visit, read_target_path}
use k8ssandra_client.Users.Roles.{Session, add_new_user, create_roles}
use k8ssandra_client.Users.Lines.{IsUser, user_line, print_lines}
use k8ssandra_client.Users.RoundTrip.{read_target_path-print}
use k8ssandra_client.Users.Created.{Created, create_roles-stops}
use k8ssandra_client.Common.Exec as Exec
use k8ssandra_client.Users.Add.{add_command, AddOptions, prompts_for}
use k8ssandra_client.Users.Credentials.{credentials-unanswered}

abbrev pod : Pod
pod = record { name = "pod-0"; owners = [] }

abbrev dc : CassandraDatacenter
dc = record {
  name = "dc1";
  namespace = "ns";
  resource_version = "1";
  stopped = false;
  config = "";
  other_spec = "";
  condition = λ c. condition_unknown;
}

-- The roles, with the last one first; "root" is refused.
abbrev Roles : Type 0
Roles = List (String × String)

abbrev add_role : String → String → Exec Roles (Unit {0})
add_role user pass roles =
    if user == "root" then (err (message "refused"), roles) else (ok tt, (user, pass) ∷ roles)

abbrev session : Session Roles
session = record {
  client = record {
    get_datacenter = λ namespace name w. (ok dc, w);
    update_datacenter = λ d w. (ok d, w);
    get_pod = λ namespace name w. (ok pod, w);
    get_owners = λ namespace name w. (ok [], w);
    list_pods = λ namespace label value w. (ok (pod ∷ []), w);
    get_secret = λ namespace name w. (ok [], w);
  };
  namespace = "ns";
  datacenter_label = "dc";
  new_management_client = λ namespace name w. (ok tt, w);
  create_role = λ p user pass superuser. add_role user pass;
}

abbrev two_users : Dict String
two_users = ("bob", "pw") ∷ ("eve", "x=y") ∷ []

abbrev disk : Disk
disk = record {
  entries = ("/users", file (print_lines (map user_line two_users))) ∷ [];
  stat_fault = λ p. none;
  read_fault = λ p. none;
  open_fault = λ p. none;
  write_fault = λ p. none;
}

abbrev no_walk : String → List Visit
no_walk path = []

two_users_valid : All IsUser two_users
two_users_valid = (
  (
    (refl, (refl, (refl, tt))),
    (refl, (refl, (refl, tt))),
    (refl, (refl, (refl, tt))),
    (refl, (refl, tt)),
    (refl, (refl, tt)),
    refl,
  ),
  (
    (
      (refl, (refl, (refl, tt))),
      (refl, (refl, (refl, tt))),
      (refl, (refl, (refl, tt))),
      (refl, (refl, (refl, tt))),
      (refl, (refl, (refl, tt))),
      refl,
    ),
    tt,
  ),
)

two_users_unique : HasUniqueKeys two_users
unfolding lookup
two_users_unique = (refl, (refl, tt))

read_target_path-print_example : read_target_path no_walk "/users" disk ≡ ok (two_users, none)
unfolding lookup
read_target_path-print_example =
    read_target_path-print no_walk "/users" disk two_users two_users_valid two_users_unique refl
      refl refl

create_roles-stops_example :
    (before : Dict String) × (user : String) × (pass : String) × (after : Dict String)
    × (between : Roles) × (◌≡◌ {A = Dict String}
        (("bob", "pw") ∷ ("root", "a") ∷ [])
        (before ++ (user, pass) ∷ after))
    × Created session pod true before [] between
    × (session.create_role pod user pass true between
        ≡ (err (message "refused"), ("bob", "pw") ∷ []))
unfolding create_roles
create_roles-stops_example =
    create_roles-stops session pod true (("bob", "pw") ∷ ("root", "a") ∷ []) [] (("bob", "pw") ∷ [])
      (message "refused") refl

-- A text that takes no keys, with its focus.
abbrev silent : TextInput Bool (Unit {0})
silent = record {
  new = false;
  set_prompt = λ t i. i;
  echo_password = λ i. i;
  set_prompt_width = λ n i. i;
  set_char_limit = λ n i. i;
  focus = λ i. true;
  blur = λ i. false;
  update_input = λ m i. i;
  value = λ i. "";
  view_input = λ i. "";
}

silent-IsTextInput : IsTextInput silent (λ i. i)
silent-IsTextInput = record {
  blurred_at_first = refl;
  prompt_keeps = λ t i. refl;
  echo_keeps = λ i. refl;
  width_keeps = λ n i. refl;
  limit_keeps = λ n i. refl;
  focuses = λ i. refl;
  blurs = λ i. refl;
  keeps_focus = λ m i. refl;
}

abbrev no_flags : AddOptions
no_flags = record {
  datacenter = "dc1";
  superuser = true;
  username = "";
  password = "";
  secret_path = "";
}

abbrev in_namespace : Exec Roles String
in_namespace w = (ok "ns", w)

abbrev connected : String → Exec Roles (Session Roles)
connected namespace w = (ok session, w)

credentials-unanswered_example :
    add_command silent in_namespace connected no_walk disk none (key esc tt ∷ []) no_flags []
    ≡ Exec.◌>>=◌ in_namespace
        (λ namespace. Exec.◌>>=◌ (connected namespace) (λ c. add_new_user c "dc1" "" "" true))
        []
unfolding prompts_for
credentials-unanswered_example =
    credentials-unanswered silent (λ i. i) silent-IsTextInput in_namespace connected no_walk disk
      no_flags (key esc tt ∷ []) [] (λ e. ground (arith, eq_iff "dc1" "", e)) refl refl
      (omega arith)
