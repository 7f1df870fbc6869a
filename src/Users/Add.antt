-- ===== src/Users/Add.antt =====
-- cmd/kubectl-k8ssandra/users/add.go: the command that adds users, from a secret or from the flags
-- and the prompts.
use mathlib.Core.Bool.{not}
use k8ssandra_client.Common.{
  Error, String, Bool, Option, none, some, List, [], ◌∷◌, ◌++◌, ◌&&◌, message, Result, ok, err,
  ◌==◌, if◌then◌else◌, ◌>>=◌,
}
use k8ssandra_client.Common.Exec.{Exec, lift}
use k8ssandra_client.Common.Exec as Exec
use k8ssandra_client.Common.Disk.{Disk}
use k8ssandra_client.Ui.Prompter.{
  Prompt, Msg, TextInput, new_prompt, mask, new_prompter, run_program,
}
use k8ssandra_client.Users.Secrets.{Visit}
use k8ssandra_client.Users.Roles.{Session, add_new_users_from_secret, add_new_user}

pub record AddOptions : Type 0 where
  pub datacenter : String
  pub superuser : Bool
  pub username : String
  pub password : String
  pub secret_path : String

unfoldable pub validate : AddOptions → Result (Unit {0})
validate o =
    if o.datacenter == ""
    then err (message "target CassandraDatacenter is required")
    else if not (o.secret_path == "") && not (o.username == "")
    then err (message "either --path or --username is allowed, not both")
    else if not (o.password == "") && o.username == ""
    then err (message "if --password is set, --username is required")
    else ok tt

unfoldable pub user_prompt : Prompt
user_prompt = new_prompt "Username"

unfoldable pub pass_prompt : Prompt
pass_prompt = mask (new_prompt "Password")

-- What is asked for: the values that no flag gave.
unfoldable pub prompts_for : String → String → List Prompt
prompts_for username password =
    (if username == "" then user_prompt ∷ [] else [])
    ++ (if password == "" then pass_prompt ∷ [] else [])

abbrev pub first_value : List Prompt → String
first_value [] = ""
first_value (p ∷ ps) = p.r_value

abbrev pub last_value : List Prompt → String
last_value [] = ""
last_value (p ∷ []) = p.r_value
last_value (p ∷ q ∷ ps) = last_value (q ∷ ps)

-- The prompts are shared with the prompter, which has set the values of those that it was given;
-- the value of a prompt that it was not given is empty.
unfoldable pub parse_values : String → String → List Prompt → String × String
parse_values username password prompts = (
  if username == "" then first_value prompts else username,
  if password == "" then last_value prompts else "",
)

-- `failure` is the error that the terminal program itself ends with, if any.
unfoldable pub or_failure : {A : Type 0} → Option Error → A → Result A
or_failure none a = ok a
or_failure (some e) a = err e

module _ {I M : Type 0} (lib : TextInput I M) where
  unfoldable pub ask :
      Option Error → String → String → List Prompt → List (Msg M) → Result (String × String)
  ask failure username password [] msgs = ok (username, password)
  ask failure username password (q ∷ qs) msgs = do
    (p', quit) ← new_prompter lib (q ∷ qs) >>= run_program lib msgs
    or_failure failure (parse_values username password p'.prompts)

  -- The user name and password that AddNewUser is called with.
  unfoldable pub credentials : Option Error → AddOptions → List (Msg M) → Result (String × String)
  credentials failure o msgs =
      ask failure o.username o.password (prompts_for o.username o.password) msgs

  module _ {W : Type 0} where
    -- `connect` is the construction of the client for a namespace.
    unfoldable pub run :
        (String → Exec W (Session W))
        → (String → List Visit)
        → Disk
        → Option Error
        → List (Msg M)
        → AddOptions
        → String
        → Exec W (Unit {0})
    run connect walk_dir disk failure msgs o namespace = Exec.◌>>=◌ (connect namespace) (λ c.
        if not (o.secret_path == "")
        then add_new_users_from_secret c walk_dir disk o.datacenter o.secret_path o.superuser
        else Exec.◌>>=◌ (lift (credentials failure o msgs))
            (λ (username, password). add_new_user c o.datacenter username password o.superuser))

    -- Complete reads the namespace of the kubeconfig before the options are validated.
    unfoldable pub add_command :
        Exec W String
        → (String → Exec W (Session W))
        → (String → List Visit)
        → Disk
        → Option Error
        → List (Msg M)
        → AddOptions
        → Exec W (Unit {0})
    add_command complete connect walk_dir disk failure msgs o = Exec.◌>>=◌ complete (λ namespace.
        Exec.◌>>=◌ (lift (validate o)) (λ u. run connect walk_dir disk failure msgs o namespace))
