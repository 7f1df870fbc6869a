-- ===== src/Ui/Tests.antt =====
-- A text field as the input of a prompt, and the runs of two prompts.
use Prim.Native.String
use k8ssandra_client.Common.{
  String, Bool, true, false, List, [], ◌∷◌, Result, ok, ◌≡◌, refl, ◌>>=◌, arith, if◌then◌else◌,
}
use k8ssandra_client.Ui.Prompter.{
  new_input, apply_default_layout, Prompt, Msg, key, other_key, tab, enter, esc, TextInput,
  Prompter, new_prompter, answered, run_program, update, confirm, update_inputs, focus_at, refocus,
  next_input, update_values,
}
use k8ssandra_client.Ui.Focus.{IsTextInput, IsFocused}
use k8ssandra_client.Ui.Runs.{HoldsInputs, run_program-IsFocused, run_program-answered}

record Field : Type 0 where
  typed : String
  active : Bool

-- A message is the text of the key.
abbrev field_input : TextInput Field String
field_input = record {
  new = record { typed = ""; active = false };
  set_prompt = λ t i. i;
  echo_password = λ i. i;
  set_prompt_width = λ n i. i;
  set_char_limit = λ n i. i;
  focus = λ i. record i { active = true };
  blur = λ i. record i { active = false };
  update_input = λ m i. if i.active then record i { typed = String.◌++◌ i.typed m } else i;
  value = λ i. i.typed;
  view_input = λ i. i.typed;
}

keeps_active :
    (m : String) (i : Field) (b : Bool)
    → b ≡ i.active
    → Field.active (if b then record i { typed = String.◌++◌ i.typed m } else i) ≡ i.active
keeps_active m i true h = refl
keeps_active m i false h = refl

field-IsTextInput : IsTextInput field_input (λ i. i.active)
field-IsTextInput = record {
  blurred_at_first = refl;
  prompt_keeps = λ t i. refl;
  echo_keeps = λ i. refl;
  width_keeps = λ n i. refl;
  limit_keeps = λ n i. refl;
  focuses = λ i. refl;
  blurs = λ i. refl;
  keeps_focus = λ m i. keeps_active m i i.active refl;
}

abbrev typing : List (Msg String)
typing = key other_key "bob" ∷ key tab "" ∷ key other_key "pw" ∷ key enter "" ∷ []

abbrev giving_up : List (Msg String)
giving_up = key other_key "bob" ∷ key tab "" ∷ key esc "" ∷ []

abbrev user : Prompt
user = record { text = "Username"; r_value = ""; masked_value = false }

abbrev password : Prompt
password = record { text = "Password"; r_value = ""; masked_value = true }

abbrev run : List (Msg String) → Result (Prompter Field × Bool)
run msgs = new_prompter field_input (user ∷ password ∷ []) >>= run_program field_input msgs

abbrev values_of : Result (Prompter Field × Bool) → List String
values_of (ok (p, b)) = values p.prompts
  where
    values : List Prompt → List String
    values [] = []
    values (q ∷ qs) = q.r_value ∷ values qs
values_of _ = []

typed_values : values_of (run typing) ≡ "bob" ∷ "pw" ∷ []
unfolding new_input apply_default_layout new_prompter run_program answered update confirm
    update_inputs focus_at refocus next_input update_values
typed_values = refl

run_program-IsFocused_example :
    (p : Prompter Field) × (quit : Bool) × (run giving_up ≡ ok (p, quit))
    × IsFocused field_input (λ i. i.active) p
run_program-IsFocused_example =
    run_program-IsFocused field_input (λ i. i.active) field-IsTextInput user (password ∷ [])
      giving_up

run_program-answered_example :
    (p : Prompter Field) × (run typing ≡ ok (p, true))
    × HoldsInputs field_input p.inputs (user ∷ password ∷ []) p.prompts
run_program-answered_example =
    run_program-answered field_input (λ i. i.active) field-IsTextInput user (password ∷ []) typing
      refl (omega arith)
