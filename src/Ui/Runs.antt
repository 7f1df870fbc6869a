-- ===== src/Ui/Runs.antt =====
-- What a run of the prompts ends with, for every sequence of messages.
use k8ssandra_client.Common.{
  ℕ, ◌+◌, ◌≤◌, ◌<◌, Bool, true, false, List, [], ◌∷◌, length, any, Result, ok, ◌≡◌, refl, sym, ap,
  subst, ◌∙◌, arith, ◌>>=◌,
}
use k8ssandra_client.Ui.Prompter.{
  Prompt, Msg, TextInput, Prompter, new_prompter, answered, update_values, run_program,
}
use k8ssandra_client.Ui.Focus.{IsTextInput, IsFocused, IsFocused-values, IsFocused-new}
use k8ssandra_client.Ui.Steps.{
  is_abort, confirms, aborted, went_on, finished, run_program-update, update-Stepped, confirms-cons,
}

-- The prompts `after` are those `before` with the texts of the inputs, one by one, as their values.
abbrev pub HoldsInputs :
    {I M : Type 0} → TextInput I M → List I → List Prompt → List Prompt → Type 0
HoldsInputs lib [] [] [] = Unit
HoldsInputs lib (i ∷ is) (p ∷ before) (q ∷ after) =
    (q ≡ record { text = p.text; r_value = lib.value i; masked_value = p.masked_value })
    × HoldsInputs lib is before after
HoldsInputs lib _ _ _ = ⊥

answered-HoldsInputs :
    {I M : Type 0} (lib : TextInput I M) (is : List I) (ps : List Prompt)
    → length ps ≡ length is
    → HoldsInputs lib is ps (answered lib is ps)
unfolding answered
answered-HoldsInputs lib [] [] h = tt
answered-HoldsInputs lib [] (p ∷ ps) h = absurd (omega (arith, h))
answered-HoldsInputs lib (i ∷ is) [] h = absurd (omega (arith, h))
answered-HoldsInputs lib (i ∷ is) (p ∷ ps) h =
    (refl, answered-HoldsInputs lib is ps (omega (arith, h)))

module _ {I M : Type 0} (lib : TextInput I M) (focused : I → Bool)
    (laws : IsTextInput lib focused) where
  run_program-safe :
      (msgs : List (Msg M)) (p : Prompter I)
      → IsFocused lib focused p
      → (p' : Prompter I) × (quit : Bool) × (run_program lib msgs p ≡ ok (p', quit))
        × IsFocused lib focused p'
  unfolding run_program
  run_program-safe [] p h = (p, false, refl, h)
  run_program-safe (msg ∷ msgs) p h = elim (update-Stepped lib focused laws msg p h) [
    | aborted a e ↦ (p, true, run_program-update lib focused laws msg msgs p p true e, h)
    | went_on next a e goes ↦
        let (p', quit, run, i) = run_program-safe msgs next goes.still in
        (p', quit, run_program-update lib focused laws msg msgs p next false e ∙ run, i)
    | finished c last e ↦ (
      update_values lib p,
      true,
      run_program-update lib focused laws msg msgs p (update_values lib p) true e,
      IsFocused-values lib focused laws p h,
    )
  ]

  run_program-done :
      (msgs : List (Msg M)) (p : Prompter I)
      → IsFocused lib focused p
      → any is_abort msgs ≡ false
      → length p.inputs ≤ p.current_pos + confirms msgs
      → (p' : Prompter I) × (run_program lib msgs p ≡ ok (p', true))
        × (p'.prompts ≡ answered lib p'.inputs p.prompts)
        × (length p.prompts ≡ length p'.inputs)
  unfolding update_values
  run_program-done [] p h a c = absurd (omega (arith, h.within, c))
  run_program-done (msg ∷ msgs) p h a c = elim (update-Stepped lib focused laws msg p h) [
    | aborted x e ↦ ground (arith, x, a)
    | went_on next x e goes ↦
        let (p', run, values, paired) =
          run_program-done msgs next goes.still (ground (arith, x, a)) (
            omega (
              arith,
              c,
              goes.position,
              goes.still.paired,
              h.paired,
              confirms-cons lib focused laws msg msgs,
              ap length goes.asked,
            )) in
        (
          p',
          run_program-update lib focused laws msg msgs p next false e ∙ run,
          values ∙ ap (answered lib p'.inputs) goes.asked,
          ap length (sym goes.asked) ∙ paired,
        )
    | finished k last e ↦ (
      update_values lib p,
      run_program-update lib focused laws msg msgs p (update_values lib p) true e,
      refl,
      h.paired,
    )
  ]

  run_program-unanswered :
      (msgs : List (Msg M)) (p : Prompter I)
      → IsFocused lib focused p
      → p.current_pos + confirms msgs < length p.inputs
      → (p' : Prompter I) × (quit : Bool) × (run_program lib msgs p ≡ ok (p', quit))
        × (p'.prompts ≡ p.prompts)
  unfolding run_program
  run_program-unanswered [] p h c = (p, false, refl, refl)
  run_program-unanswered (msg ∷ msgs) p h c = elim (update-Stepped lib focused laws msg p h) [
    | aborted x e ↦ (p, true, run_program-update lib focused laws msg msgs p p true e, refl)
    | went_on next x e goes ↦
        let (p', quit, run, same) = run_program-unanswered msgs next goes.still (
          omega (
            arith,
            c,
            goes.position,
            goes.still.paired,
            h.paired,
            confirms-cons lib focused laws msg msgs,
            ap length goes.asked,
          )) in
        (
          p',
          quit,
          run_program-update lib focused laws msg msgs p next false e ∙ run,
          same ∙ goes.asked,
        )
    | finished k last e ↦
        absurd (omega (arith, c, k, last, confirms-cons lib focused laws msg msgs))
  ]

  new_prompter-start :
      (q : Prompt) (qs : List Prompt) (p : Prompter I)
      → new_prompter lib (q ∷ qs) ≡ ok p
      → (p.prompts ≡ q ∷ qs) × (p.current_pos ≡ 0)
  unfolding new_prompter
  new_prompter-start q qs p h = (ap made_prompts (sym h), ap made_pos (sym h))
    where
      made_prompts : Result (Prompter I) → List Prompt
      made_prompts (ok p) = p.prompts
      made_prompts _ = []

      made_pos : Result (Prompter I) → ℕ
      made_pos (ok p) = p.current_pos
      made_pos _ = 0

  module _ (q : Prompt) (qs : List Prompt) where
    -- For text inputs that keep and take their focus as documented, and at least one prompt, the
    -- program never panics, whatever messages it gets: it ends in a state where the current
    -- position is that of an input, every prompt has an input, and exactly the current one of the
    -- inputs has the focus.
    pub run_program-IsFocused :
        (msgs : List (Msg M))
        → (p : Prompter I) × (quit : Bool) × ((new_prompter lib (q ∷ qs) >>= run_program lib msgs)
            ≡ ok (p, quit))
          × IsFocused lib focused p
    run_program-IsFocused msgs =
        let (start, made, h) = IsFocused-new lib focused laws q qs in
        let (p, quit, run, i) = run_program-safe msgs start h in
        (p, quit, ap (λ r. r >>= run_program lib msgs) made ∙ run, i)

    -- For text inputs that behave as documented and at least one prompt, when no message is an
    -- escape or an interrupt and the messages have at least as many enter and tab keys as there
    -- are prompts, the program quits by itself, and each prompt has the value of its own input and
    -- is otherwise as it was given.
    pub run_program-answered :
        (msgs : List (Msg M))
        → any is_abort msgs ≡ false
        → length (q ∷ qs) ≤ confirms msgs
        → (p : Prompter I) × ((new_prompter lib (q ∷ qs) >>= run_program lib msgs) ≡ ok (p, true))
          × HoldsInputs lib p.inputs (q ∷ qs) p.prompts
    run_program-answered msgs a c =
        let (start, made, h) = IsFocused-new lib focused laws q qs in
        let (asked, at_first) = new_prompter-start q qs start made in
        let (p, run, values, paired) =
          run_program-done msgs start h a (omega (arith, c, h.paired, ap length asked, at_first)) in
        (
          p,
          ap (λ r. r >>= run_program lib msgs) made ∙ run,
          subst (HoldsInputs lib p.inputs (q ∷ qs))
              (sym (values ∙ ap (answered lib p.inputs) asked))
              (answered-HoldsInputs lib p.inputs (q ∷ qs) (ap length (sym asked) ∙ paired)),
        )

    -- For text inputs that behave as documented and at least one prompt, as long as the messages
    -- have fewer enter and tab keys than there are prompts, each prompt stays as it was given,
    -- whether the program quits or not.
    pub run_program-new_prompts :
        (msgs : List (Msg M))
        → confirms msgs < length (q ∷ qs)
        → (p : Prompter I) × (quit : Bool) × ((new_prompter lib (q ∷ qs) >>= run_program lib msgs)
            ≡ ok (p, quit))
          × (p.prompts ≡ q ∷ qs)
    run_program-new_prompts msgs c =
        let (start, made, h) = IsFocused-new lib focused laws q qs in
        let (asked, at_first) = new_prompter-start q qs start made in
        let (p, quit, run, same) =
          run_program-unanswered msgs start h
            (omega (arith, c, h.paired, ap length asked, at_first)) in
        (p, quit, ap (λ r. r >>= run_program lib msgs) made ∙ run, same ∙ asked)
