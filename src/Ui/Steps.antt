-- ===== src/Ui/Steps.antt =====
-- What one message makes of the prompts.
use k8ssandra_client.Common.{
  ℕ, ◌+◌, Bool, true, false, List, [], ◌∷◌, length, nat_eq, Result, ok, ◌≡◌, refl, sym, ap, subst,
  ◌∙◌, arith, if◌then◌else◌, Bool-cases, ◌⊎◌, inl, inr, ◌>>=◌,
}
use k8ssandra_client.Ui.Prompter.{
  Msg, key, error_msg, other_msg, ctrl_c, esc, enter, tab, other_key, TextInput, Prompter,
  next_input, update_values, refocus, update_inputs, confirm, update, run_program,
}
use k8ssandra_client.Ui.Focus.{
  IsTextInput, IsFocused, IsFocused-update_inputs, IsFocused-next, next_input-current_pos,
}

module _ {M : Type 0} where
  abbrev pub is_abort : Msg M → Bool
  is_abort (key ctrl_c raw) = true
  is_abort (key esc raw) = true
  is_abort _ = false

  -- The number of enter and tab keys.
  abbrev pub confirms : List (Msg M) → ℕ
  confirms [] = 0
  confirms (key enter raw ∷ msgs) = confirms msgs + 1
  confirms (key tab raw ∷ msgs) = confirms msgs + 1
  confirms (_ ∷ msgs) = confirms msgs

module _ {I M : Type 0} (lib : TextInput I M) (focused : I → Bool) where
  pub record Goes (n : ℕ) (p p' : Prompter I) : Type 0 where
    pub still : IsFocused lib focused p'
    pub position : p'.current_pos ≡ p.current_pos + n
    pub asked : p'.prompts ≡ p.prompts

module _ {I M : Type 0} (lib : TextInput I M) (focused : I → Bool)
    (laws : IsTextInput lib focused) where
  pub run_program-update :
      (msg : Msg M) (msgs : List (Msg M)) (p p' : Prompter I) (quit : Bool)
      → update lib msg p ≡ ok (p', quit)
      → run_program lib (msg ∷ msgs) p ≡ (if quit then ok (p', true) else run_program lib msgs p')
  unfolding run_program
  run_program-update msg msgs p p' quit e =
      ap
        (λ (r : Result (Prompter I × Bool)). do
          (q, b) ← r
          let rest = run_program lib msgs q
          if b then ok (q, true) else rest)
        e

  update_inputs-Goes :
      (raw : M) (p : Prompter I)
      → IsFocused lib focused p
      → Goes lib focused 0 p (update_inputs lib raw p)
  unfolding update_inputs
  update_inputs-Goes raw p h = record {
    still = IsFocused-update_inputs lib focused laws raw p h;
    position = omega arith;
    asked = refl;
  }

  confirm-last :
      (raw : M) (p : Prompter I)
      → nat_eq (p.current_pos + 1) (length p.inputs) ≡ true
      → confirm lib raw p ≡ ok (update_values lib p, true)
  unfolding confirm
  confirm-last raw p e = ground (arith, e)

  confirm-Goes :
      (raw : M) (p : Prompter I)
      → IsFocused lib focused p
      → nat_eq (p.current_pos + 1) (length p.inputs) ≡ false
      → (p' : Prompter I) × (confirm lib raw p ≡ ok (p', false)) × Goes lib focused 1 p p'
  unfolding confirm next_input refocus update_inputs
  confirm-Goes raw p h e = (
    update_inputs lib raw (refocus lib (next_input lib p)),
    ground (arith, e, h.within),
    record {
      still = IsFocused-next lib focused laws raw p h e;
      position = next_input-current_pos lib p h.within e;
      asked = refl;
    },
  )

  -- A message that neither aborts nor confirms changes the inputs at most.
  update-Goes :
      (msg : Msg M) (p : Prompter I)
      → IsFocused lib focused p
      → is_abort msg ≡ false
      → confirms (msg ∷ []) ≡ 0
      → (p' : Prompter I) × (update lib msg p ≡ ok (p', false)) × Goes lib focused 0 p p'
  unfolding update
  update-Goes (key ctrl_c raw) p h a c = ground (arith, a)
  update-Goes (key esc raw) p h a c = ground (arith, a)
  update-Goes (key enter raw) p h a c = absurd (omega (arith, c))
  update-Goes (key tab raw) p h a c = absurd (omega (arith, c))
  update-Goes (key other_key raw) p h a c =
      (update_inputs lib raw p, refl, update_inputs-Goes raw p h)
  update-Goes error_msg p h a c =
      (p, refl, record { still = h; position = omega arith; asked = refl })
  update-Goes (other_msg raw) p h a c = (update_inputs lib raw p, refl, update_inputs-Goes raw p h)

  -- A message aborts, or is answered as a confirmation, or is neither.
  msg-cases :
      (msg : Msg M)
      → (is_abort msg ≡ true)
        ⊎ (((is_abort msg ≡ false) × (confirms (msg ∷ []) ≡ 0))
            ⊎ ((raw : M) × (is_abort msg ≡ false)
                × (confirms (msg ∷ []) ≡ 1)
                × ((p : Prompter I) → update lib msg p ≡ confirm lib raw p)))
  unfolding update
  msg-cases (key ctrl_c raw) = inl refl
  msg-cases (key esc raw) = inl refl
  msg-cases (key enter raw) = inr (inr (raw, refl, omega arith, λ p. refl))
  msg-cases (key tab raw) = inr (inr (raw, refl, omega arith, λ p. refl))
  msg-cases (key other_key raw) = inr (inl (refl, refl))
  msg-cases error_msg = inr (inl (refl, refl))
  msg-cases (other_msg raw) = inr (inl (refl, refl))

  update-abort :
      (msg : Msg M) (p : Prompter I) → is_abort msg ≡ true → update lib msg p ≡ ok (p, true)
  unfolding update
  update-abort (key ctrl_c raw) p h = refl
  update-abort (key esc raw) p h = refl
  update-abort (key enter raw) p h = ground (arith, h)
  update-abort (key tab raw) p h = ground (arith, h)
  update-abort (key other_key raw) p h = ground (arith, h)
  update-abort error_msg p h = ground (arith, h)
  update-abort (other_msg raw) p h = ground (arith, h)

  pub confirms-cons :
      (msg : Msg M) (msgs : List (Msg M))
      → confirms (msg ∷ msgs) ≡ confirms (msg ∷ []) + confirms msgs
  confirms-cons (key ctrl_c raw) msgs = omega arith
  confirms-cons (key esc raw) msgs = omega arith
  confirms-cons (key enter raw) msgs = omega arith
  confirms-cons (key tab raw) msgs = omega arith
  confirms-cons (key other_key raw) msgs = omega arith
  confirms-cons error_msg msgs = omega arith
  confirms-cons (other_msg raw) msgs = omega arith

  -- One message: the program quits with the prompts as they were, or goes on, or has the last answer.
  pub data Stepped (msg : Msg M) (p : Prompter I) : Type 0 where
    aborted : is_abort msg ≡ true → update lib msg p ≡ ok (p, true) → Stepped msg p
    went_on :
        (p' : Prompter I)
        → is_abort msg ≡ false
        → update lib msg p ≡ ok (p', false)
        → Goes lib focused (confirms (msg ∷ [])) p p'
        → Stepped msg p
    finished :
        confirms (msg ∷ []) ≡ 1
        → p.current_pos + 1 ≡ length p.inputs
        → update lib msg p ≡ ok (update_values lib p, true)
        → Stepped msg p

  confirm-Stepped :
      (raw : M) (msg : Msg M) (p : Prompter I)
      → IsFocused lib focused p
      → is_abort msg ≡ false
      → confirms (msg ∷ []) ≡ 1
      → update lib msg p ≡ confirm lib raw p
      → Stepped msg p
  confirm-Stepped raw msg p h a c e =
      elim (Bool-cases (nat_eq (p.current_pos + 1) (length p.inputs))) [
        | inl last ↦ finished c (ground (arith, last)) (e ∙ confirm-last raw p last)
        | inr more ↦
            let (p', next, goes) = confirm-Goes raw p h more in
            went_on p' a (e ∙ next) (subst (λ n. Goes lib focused n p p') (sym c) goes)
      ]

  pub update-Stepped : (msg : Msg M) (p : Prompter I) → IsFocused lib focused p → Stepped msg p
  update-Stepped msg p h = elim (msg-cases msg) [
    | inl a ↦ aborted a (update-abort msg p a)
    | inr (inl (a, c)) ↦
        let (p', e, goes) = update-Goes msg p h a c in
        went_on p' a e (subst (λ n. Goes lib focused n p p') (sym c) goes)
    | inr (inr (raw, a, c, e)) ↦ confirm-Stepped raw msg p h a c (e p)
  ]
