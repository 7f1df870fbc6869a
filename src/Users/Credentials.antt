-- ===== src/Users/Credentials.antt =====
-- The user name and the password that a user is added with.
use k8ssandra_client.Common.{
  none, ◌<◌, String, Bool, true, false, List, [], ◌∷◌, ◌++◌, length, Result, ok, ◌==◌, eq_iff, ◌≡◌,
  refl, sym, ap, subst, ◌∙◌, arith, if◌then◌else◌, ◌≢◌, ◌>>=◌,
}
use k8ssandra_client.Common.Exec.{Exec}
use k8ssandra_client.Common.Exec as Exec
use k8ssandra_client.Common.Disk.{Disk}
use k8ssandra_client.Users.Secrets.{Visit}
use k8ssandra_client.Users.Roles.{Session, add_new_user}
use k8ssandra_client.Ui.Prompter.{Prompt, Msg, TextInput, Prompter, new_prompt, mask}
use k8ssandra_client.Ui.Focus.{IsTextInput}
use k8ssandra_client.Ui.Runs.{run_program-new_prompts}
use k8ssandra_client.Ui.Steps.{confirms}
use k8ssandra_client.Users.Add.{
  AddOptions, validate, run, add_command, user_prompt, pass_prompt, prompts_for, first_value,
  last_value, parse_values, or_failure, ask, credentials,
}

module _ {I M : Type 0} (lib : TextInput I M) (focused : I → Bool)
    (laws : IsTextInput lib focused) where
  ask-few :
      (username password : String) (q : Prompt) (qs : List Prompt) (msgs : List (Msg M))
      → confirms msgs < length (q ∷ qs)
      → ask lib none username password (q ∷ qs) msgs ≡ ok (parse_values username password (q ∷ qs))
  unfolding ask or_failure
  ask-few username password q qs msgs few =
      let (p, quit, run, same) = run_program-new_prompts lib focused laws q qs msgs few in
      ap
        (λ (r : Result (Prompter I × Bool)). do
          (p', ended) ← r
          or_failure none (parse_values username password p'.prompts))
        run
      ∙ ap (λ ps. ok (parse_values username password ps)) same

-- The values as they follow from whether the user name is missing.
abbrev parsed : String → Bool → String × String
parsed username missing =
    let prompts = (if missing then user_prompt ∷ [] else []) ++ pass_prompt ∷ [] in
    (if missing then first_value prompts else username, last_value prompts)

parsed-unanswered :
    (username : String) (missing : Bool)
    → username == "" ≡ missing
    → parsed username missing ≡ (username, "")
unfolding user_prompt pass_prompt new_prompt mask
parsed-unanswered username true h = ap (λ u. (u, "")) (sym (ground (arith, eq_iff username "", h)))
parsed-unanswered username false h = refl

parse_values-unanswered :
    (username : String) → parse_values username "" (prompts_for username "") ≡ (username, "")
unfolding parse_values prompts_for
parse_values-unanswered username = parsed-unanswered username (username == "") refl

prompts_for-cons :
    (username : String) → (q : Prompt) × (qs : List Prompt) × (prompts_for username "" ≡ q ∷ qs)
unfolding prompts_for
prompts_for-cons username = cons (username == "")
  where
    cons :
        (missing : Bool)
        → (q : Prompt) × (qs : List Prompt) × ((if missing then user_prompt ∷ [] else [])
              ++ pass_prompt ∷ []
            ≡ q ∷ qs)
    cons true = (user_prompt, pass_prompt ∷ [], refl)
    cons false = (pass_prompt, [], refl)

module _ {I M : Type 0} (lib : TextInput I M) (focused : I → Bool)
    (laws : IsTextInput lib focused) where
  credentials_left :
      (o : AddOptions) (msgs : List (Msg M))
      → o.password ≡ ""
      → confirms msgs < length (prompts_for o.username o.password)
      → credentials lib none o msgs ≡ ok (o.username, "")
  unfolding credentials
  credentials_left o msgs none_given few =
      let (q, qs, asked) = prompts_for-cons o.username in
      ap (λ p. ask lib none o.username p (prompts_for o.username p) msgs) none_given
      ∙ ap (λ ps. ask lib none o.username "" ps msgs) asked
      ∙ ask-few lib focused laws o.username "" q qs msgs (
          subst (λ ps. confirms msgs < length ps) (ap (prompts_for o.username) none_given ∙ asked)
            few)
      ∙ ap (λ ps. ok (parse_values o.username "" ps)) (sym asked)
      ∙ ap ok (parse_values-unanswered o.username)

  valid_lem :
      (o : AddOptions)
      → o.datacenter ≢ ""
      → o.secret_path ≡ ""
      → o.password ≡ ""
      → validate o ≡ ok tt
  unfolding validate
  valid_lem o named no_file none_given = ground (
    arith,
    eq_iff o.datacenter "",
    eq_iff o.secret_path "",
    eq_iff o.password "",
    named,
    no_file,
    none_given,
  )

  -- For text inputs that behave as documented, where a datacenter but neither a file nor a
  -- password was given by the flags, the prompts are left before the last answer and the terminal
  -- program reports no error, the command that adds users, once it has its namespace and its
  -- clients, calls AddNewUser all the same, with an empty password and the user name of the flag,
  -- if any.
  pub credentials-unanswered :
      {W : Type 0} (complete : Exec W String) (connect : String → Exec W (Session W))
      (walk_dir : String → List Visit) (disk : Disk) (o : AddOptions) (msgs : List (Msg M)) (w : W)
      → o.datacenter ≢ ""
      → o.secret_path ≡ ""
      → o.password ≡ ""
      → confirms msgs < length (prompts_for o.username o.password)
      → add_command lib complete connect walk_dir disk none msgs o w
        ≡ Exec.◌>>=◌ complete
            (λ namespace.
              Exec.◌>>=◌
                (connect namespace)
                (λ c. add_new_user c o.datacenter o.username "" o.superuser))
            w
  unfolding add_command run
  credentials-unanswered complete connect walk_dir disk o msgs w named no_file none_given few =
      rw (valid_lem o named no_file none_given) rw (credentials_left o msgs none_given few) rw
        no_file refl
