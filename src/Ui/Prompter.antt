-- ===== src/Ui/Prompter.antt =====
-- pkg/ui/prompt.go: prompts that are answered one after the other. The text inputs are those of the
-- bubbles library, so they are parameters.
use Prim.Native.String
use k8ssandra_client.Common.{
  ℕ, zero, suc, ◌+◌, ◌%◌, String, Bool, true, false, List, [], ◌∷◌, map, length, nat_eq, Result, ok,
  panic, if◌then◌else◌, ◌>>=◌,
}

pub record Prompt : Type 0 where
  pub text : String
  pub r_value : String
  pub masked_value : Bool

unfoldable pub new_prompt : String → Prompt
new_prompt text = record { text = text; r_value = ""; masked_value = false }

unfoldable pub mask : Prompt → Prompt
mask p = record p { masked_value = true }

-- tea.KeyMsg by its type, with the message itself; the message of an error; any other message.
pub data Key : Type 0 where
  ctrl_c esc enter tab other_key : Key

pub data Msg (M : Type 0) : Type 0 where
  key : Key → M → Msg M
  error_msg : Msg M
  other_msg : M → Msg M

-- textinput.Model: textinput.New, the fields that are set (Prompt, the echo of a password as "*", the
-- width of the prompt's style, CharLimit), and the methods that are called.
pub record TextInput (I M : Type 0) : Type 0 where
  pub new : I
  pub set_prompt : String → I → I
  pub echo_password : I → I
  pub set_prompt_width : ℕ → I → I
  pub set_char_limit : ℕ → I → I
  pub focus : I → I
  pub blur : I → I
  pub update_input : M → I → I
  pub value : I → String
  pub view_input : I → String

pub record Prompter (I : Type 0) : Type 0 where
  pub current_pos : ℕ
  pub inputs : List I
  pub prompts : List Prompt

module _ {I M : Type 0} (lib : TextInput I M) where
  unfoldable pub apply_default_layout : I → I
  apply_default_layout ti = lib.set_char_limit 32 (lib.set_prompt_width 15 ti)

  -- The input of a prompt.
  unfoldable pub new_input : Prompt → I
  new_input p =
      let ti = lib.set_prompt p.text lib.new in
      apply_default_layout (if p.masked_value then lib.echo_password ti else ti)

  -- inputs[i].Focus()
  unfoldable pub focus_at : ℕ → List I → List I
  focus_at i [] = []
  focus_at zero (x ∷ xs) = lib.focus x ∷ xs
  focus_at (suc i) (x ∷ xs) = x ∷ focus_at i xs

  unfoldable pub new_prompter : List Prompt → Result (Prompter I)
  new_prompter [] = panic
  new_prompter (p ∷ ps) =
      ok
        (record { current_pos = 0; inputs = focus_at 0 (map new_input (p ∷ ps)); prompts = p ∷ ps })

  unfoldable pub next_input : Prompter I → Prompter I
  next_input p = record p { current_pos = (p.current_pos + 1) % length p.inputs }

  -- Every prompt has an input.
  unfoldable pub answered : List I → List Prompt → List Prompt
  answered [] prompts = prompts
  answered (i ∷ is) [] = []
  answered (i ∷ is) (p ∷ ps) = record p { r_value = lib.value i } ∷ answered is ps

  unfoldable pub update_values : Prompter I → Prompter I
  update_values p = record p { prompts = answered p.inputs p.prompts }

  unfoldable pub refocus : Prompter I → Prompter I
  refocus p = record p { inputs = focus_at p.current_pos (map lib.blur p.inputs) }

  unfoldable pub update_inputs : M → Prompter I → Prompter I
  update_inputs raw p = record p { inputs = map (lib.update_input raw) p.inputs }

  -- Enter and tab: the last prompt ends the program. The remainder by no input panics.
  unfoldable pub confirm : M → Prompter I → Result (Prompter I × Bool)
  confirm raw p =
      if nat_eq (p.current_pos + 1) (length p.inputs)
      then ok (update_values p, true)
      else if nat_eq (length p.inputs) 0
      then panic
      else ok (update_inputs raw (refocus (next_input p)), false)

  -- The flag says that the program is to quit.
  unfoldable pub update : Msg M → Prompter I → Result (Prompter I × Bool)
  update (key ctrl_c raw) p = ok (p, true)
  update (key esc raw) p = ok (p, true)
  update (key enter raw) p = confirm raw p
  update (key tab raw) p = confirm raw p
  update (key other_key raw) p = ok (update_inputs raw p, false)
  update error_msg p = ok (p, false)
  update (other_msg raw) p = ok (update_inputs raw p, false)

  -- The inputs up to the current one, each on a line.
  unfoldable pub view_from : ℕ → List I → String
  view_from n [] = ""
  view_from zero (i ∷ is) = String.◌++◌ (lib.view_input i) "\n"
  view_from (suc n) (i ∷ is) = String.◌++◌ (lib.view_input i) (String.◌++◌ "\n" (view_from n is))

  unfoldable pub view : Prompter I → String
  view p = view_from p.current_pos p.inputs

  -- The program hands over the messages in turn until it is to quit.
  unfoldable pub run_program : List (Msg M) → Prompter I → Result (Prompter I × Bool)
  run_program [] p = ok (p, false)
  run_program (msg ∷ msgs) p = do
    (p', quit) ← update msg p
    let rest = run_program msgs p'
    if quit then ok (p', true) else rest
