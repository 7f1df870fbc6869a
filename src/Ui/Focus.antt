-- ===== src/Ui/Focus.antt =====
-- Which input takes the keys: the one of the current prompt, and no other.
use native.Mathlib.Nat.{div-add-mod}
use k8ssandra_client.Common.{
  if◌then◌else◌, String, ℕ, zero, suc, ◌+◌, ◌*◌, ◌/◌, ◌%◌, ◌<◌, Bool, true, false, List, [], ◌∷◌,
  map, length, nat_eq, All, ok, ◌≡◌, refl, sym, subst, ◌∙◌, arith,
}
use k8ssandra_client.Ui.Prompter.{
  new_input, apply_default_layout, Prompt, TextInput, Prompter, focus_at, new_prompter, next_input,
  answered, update_values, refocus, update_inputs,
}

module _ {I M : Type 0} (lib : TextInput I M) (focused : I → Bool) where
  -- Documented behaviour of a text input: it is blurred at first, takes and loses the focus when it
  -- is told to, and keeps it through a setting and a message.
  pub record IsTextInput : Type 0 where
    pub blurred_at_first : focused lib.new ≡ false
    pub prompt_keeps : (t : String) (i : I) → focused (lib.set_prompt t i) ≡ focused i
    pub echo_keeps : (i : I) → focused (lib.echo_password i) ≡ focused i
    pub width_keeps : (n : ℕ) (i : I) → focused (lib.set_prompt_width n i) ≡ focused i
    pub limit_keeps : (n : ℕ) (i : I) → focused (lib.set_char_limit n i) ≡ focused i
    pub focuses : (i : I) → focused (lib.focus i) ≡ true
    pub blurs : (i : I) → focused (lib.blur i) ≡ false
    pub keeps_focus : (m : M) (i : I) → focused (lib.update_input m i) ≡ focused i

  abbrev pub Blurred : List I → Type 0
  Blurred = All (λ i. focused i ≡ false)

  abbrev pub FocusedAt : ℕ → List I → Type 0
  FocusedAt n [] = Unit
  FocusedAt zero (i ∷ is) = (focused i ≡ true) × Blurred is
  FocusedAt (suc n) (i ∷ is) = (focused i ≡ false) × FocusedAt n is

  pub record IsFocused (p : Prompter I) : Type 0 where
    pub within : p.current_pos < length p.inputs
    pub only : FocusedAt p.current_pos p.inputs
    pub paired : length p.prompts ≡ length p.inputs

  module _ (laws : IsTextInput) where
    FocusedAt-focus_at : (n : ℕ) (is : List I) → Blurred is → FocusedAt n (focus_at lib n is)
    unfolding focus_at
    FocusedAt-focus_at n [] h = tt
    FocusedAt-focus_at zero (i ∷ is) (b, h) = (laws.focuses i, h)
    FocusedAt-focus_at (suc n) (i ∷ is) (b, h) = (b, FocusedAt-focus_at n is h)

    Blurred-blur : (is : List I) → Blurred (map lib.blur is)
    Blurred-blur [] = tt
    Blurred-blur (i ∷ is) = (laws.blurs i, Blurred-blur is)

    echo-kept : (b : Bool) (i : I) → focused (if b then lib.echo_password i else i) ≡ focused i
    echo-kept true i = laws.echo_keeps i
    echo-kept false i = refl

    blurred-new_input : (p : Prompt) → focused (new_input lib p) ≡ false
    unfolding new_input apply_default_layout
    blurred-new_input p =
        let ti = lib.set_prompt p.text lib.new in
        let masked = if p.masked_value then lib.echo_password ti else ti in
        laws.limit_keeps 32 (lib.set_prompt_width 15 masked)
        ∙ laws.width_keeps 15 masked
        ∙ echo-kept p.masked_value ti
        ∙ laws.prompt_keeps p.text lib.new
        ∙ laws.blurred_at_first

    Blurred-new : (ps : List Prompt) → Blurred (map (new_input lib) ps)
    Blurred-new [] = tt
    Blurred-new (p ∷ ps) = (blurred-new_input p, Blurred-new ps)

    Blurred-update : (m : M) (is : List I) → Blurred is → Blurred (map (lib.update_input m) is)
    Blurred-update m [] h = tt
    Blurred-update m (i ∷ is) (b, h) = (laws.keeps_focus m i ∙ b, Blurred-update m is h)

    FocusedAt-update :
        (m : M) (n : ℕ) (is : List I) → FocusedAt n is → FocusedAt n (map (lib.update_input m) is)
    FocusedAt-update m n [] h = tt
    FocusedAt-update m zero (i ∷ is) (b, h) = (laws.keeps_focus m i ∙ b, Blurred-update m is h)
    FocusedAt-update m (suc n) (i ∷ is) (b, h) =
        (laws.keeps_focus m i ∙ b, FocusedAt-update m n is h)

no_multiple : (a b q r : ℕ) → b * q + r ≡ a → a < b → r ≡ a
no_multiple a b zero r h l = omega (arith, h, l)
no_multiple a b (suc q) r h l = omega (arith, h, l)

remainder_below : (a b : ℕ) → a < b → a % b ≡ a
remainder_below a b l = no_multiple a b (a / b) (a % b) (div-add-mod a b) l

length-map : {A B : Type 0} (f : A → B) (xs : List A) → length (map f xs) ≡ length xs
length-map f [] = refl
length-map f (x ∷ xs) = omega (arith, length-map f xs)

module _ {I M : Type 0} (lib : TextInput I M) where
  length-focus_at : (n : ℕ) (is : List I) → length (focus_at lib n is) ≡ length is
  unfolding focus_at
  length-focus_at n [] = refl
  length-focus_at zero (i ∷ is) = refl
  length-focus_at (suc n) (i ∷ is) = omega (arith, length-focus_at n is)

  length-answered : (is : List I) (ps : List Prompt) → length (answered lib is ps) ≡ length ps
  unfolding answered
  length-answered [] ps = refl
  length-answered (i ∷ is) [] = refl
  length-answered (i ∷ is) (p ∷ ps) = omega (arith, length-answered is ps)

  -- The next input is one of the inputs, and a later one but for the last.
  pub next_input-current_pos :
      (p : Prompter I)
      → p.current_pos < length p.inputs
      → nat_eq (p.current_pos + 1) (length p.inputs) ≡ false
      → (next_input lib p).current_pos ≡ p.current_pos + 1
  unfolding next_input
  next_input-current_pos p h e =
      remainder_below (p.current_pos + 1) (length p.inputs) (ground arith)

  module _ (focused : I → Bool) (laws : IsTextInput lib focused) where
    pub IsFocused-update_inputs :
        (m : M) (p : Prompter I)
        → IsFocused lib focused p
        → IsFocused lib focused (update_inputs lib m p)
    unfolding update_inputs
    IsFocused-update_inputs m p h = record {
      within = omega (arith, length-map (lib.update_input m) p.inputs, h.within);
      only = FocusedAt-update lib focused laws m p.current_pos p.inputs h.only;
      paired = h.paired ∙ sym (length-map (lib.update_input m) p.inputs);
    }

    -- Moving on gives the focus to the next input, and takes it from the others.
    IsFocused-refocus :
        (p : Prompter I)
        → p.current_pos < length p.inputs
        → length p.prompts ≡ length p.inputs
        → IsFocused lib focused (refocus lib p)
    unfolding refocus
    IsFocused-refocus p w e = record {
      within = omega (
        arith,
        length-focus_at p.current_pos (map lib.blur p.inputs),
        length-map lib.blur p.inputs,
        w,
      );
      only =
          FocusedAt-focus_at lib focused laws p.current_pos (map lib.blur p.inputs)
            (Blurred-blur lib focused laws p.inputs);
      paired = omega (
        arith,
        length-focus_at p.current_pos (map lib.blur p.inputs),
        length-map lib.blur p.inputs,
        e,
      );
    }

    pub IsFocused-next :
        (raw : M) (p : Prompter I)
        → IsFocused lib focused p
        → nat_eq (p.current_pos + 1) (length p.inputs) ≡ false
        → IsFocused lib focused (update_inputs lib raw (refocus lib (next_input lib p)))
    unfolding next_input
    IsFocused-next raw p h e = IsFocused-update_inputs raw (refocus lib (next_input lib p)) (
        IsFocused-refocus (next_input lib p)
          (subst (λ n. n < length p.inputs) (sym (next_input-current_pos p h.within e))
            (ground (arith, h.within)))
          h.paired)

    pub IsFocused-values :
        (p : Prompter I) → IsFocused lib focused p → IsFocused lib focused (update_values lib p)
    unfolding update_values
    IsFocused-values p h = record {
      within = h.within;
      only = h.only;
      paired = length-answered p.inputs p.prompts ∙ h.paired;
    }

    pub IsFocused-new :
        (q : Prompt) (qs : List Prompt)
        → (p : Prompter I) × (new_prompter lib (q ∷ qs) ≡ ok p) × IsFocused lib focused p
    unfolding new_prompter focus_at
    IsFocused-new q qs = (
      record {
        current_pos = 0;
        inputs = lib.focus (new_input lib q) ∷ map (new_input lib) qs;
        prompts = q ∷ qs;
      },
      refl,
      record {
        within = omega arith;
        only = (laws.focuses (new_input lib q), Blurred-new lib focused laws qs);
        paired = omega (arith, length-map (new_input lib) qs);
      },
    )
