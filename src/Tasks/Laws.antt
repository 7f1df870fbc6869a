-- ===== src/Tasks/Laws.antt =====
-- The names of tasks, and the arguments of a compaction.
use Prim.Native.String
use text.Mathlib.TextLemmas
use k8ssandra_client.Common.{
  ℕ, zero, suc, ◌+◌, ◌≤◌, ◌<◌, String, List, [], ◌∷◌, ok, err, message, concat, decimal, take_text,
  ◌≡◌, ◌≢◌, ◌⊎◌, inl, inr, refl, arith, ◌==◌, eq_iff, Bool-cases,
}
use k8ssandra_client.Common.Exec.{Exec}
use k8ssandra_client.Tasks.Names.{
  text_length, char_at, charset, random_kube_compatible_text, static_part, create_name,
}
use k8ssandra_client.Tasks.Create.{JobArguments, common_arguments, compaction_arguments}

text_length-append : (s t : String) → text_length (String.◌++◌ s t) ≡ text_length s + text_length t
text_length-append String.[] t = rw (TextLemmas.nil-append t) (omega arith)
text_length-append (String.◌∷◌ c s) t =
    rw (TextLemmas.cons-append c s t) (omega (arith, text_length-append s t))

text_length-take_text : (n : ℕ) (s : String) → text_length (take_text n s) ≤ n
text_length-take_text zero s = omega arith
text_length-take_text (suc n) String.[] = omega arith
text_length-take_text (suc n) (String.◌∷◌ c s) = omega (arith, text_length-take_text n s)

char_at-in_range :
    (i : ℕ) (s : String)
    → i < text_length s
    → (c : String) × (char_at i s ≡ ok c) × (text_length c ≡ 1)
unfolding char_at
char_at-in_range i String.[] h = absurd (omega arith)
char_at-in_range zero (String.◌∷◌ c s) h = (String.◌∷◌ c "", refl, refl)
char_at-in_range (suc i) (String.◌∷◌ c s) h = char_at-in_range i s (omega (arith, h))

text_length-static_part : (first second : String) → text_length (static_part first second) ≤ 45
unfolding static_part
text_length-static_part first second =
    ground (arith, text_length-take_text 45 (concat (first ∷ "-" ∷ second ∷ [])))

module _ {W : Type 0} (intn : ℕ → Exec W ℕ) (now : Exec W ℕ) where
  -- rand.Intn(n) is at least 0 and less than n.
  abbrev pub IsRandom : Type 0
  IsRandom = (w : W) → (i : ℕ) × (w' : W) × (intn 35 w ≡ (ok i, w')) × (i < 35)

  -- The seconds since 1970 have at most ten digits until the year 2286.
  abbrev pub IsClock : Type 0
  IsClock = (w : W) → (s : ℕ) × (w' : W) × (now w ≡ (ok s, w')) × (text_length (decimal s) ≤ 10)

  text_length-random :
      IsRandom
      → (n : ℕ) (w : W)
      → (s : String) × (w' : W) × (random_kube_compatible_text intn n w ≡ (ok s, w'))
        × (text_length s ≡ n)
  unfolding random_kube_compatible_text
  text_length-random r zero w = ("", w, refl, refl)
  text_length-random r (suc n) w =
      let (i, w', drawn, below) = r w in
      let (c, at, one) = char_at-in_range i charset (omega (arith, below)) in
      let (s, w'', more, same) = text_length-random r n w' in
      (
        String.◌++◌ c s,
        w'',
        rw drawn rw at rw more refl,
        omega (arith, text_length-append c s, one, same),
      )

  -- Given random numbers in range and a clock whose seconds have at most ten digits, createName
  -- returns a name, and it has at most 63 characters.
  pub text_length-create_name :
      (first second : String) (w : W)
      → IsRandom
      → IsClock
      → (name : String) × (w' : W) × (create_name intn now first second w ≡ (ok name, w'))
        × (text_length name ≤ 63)
  unfolding create_name
  text_length-create_name first second w r t =
      let (seconds, w', read, digits) = t w in
      let (random, w'', drawn, eight) = text_length-random r 8 w' in
      (
        String.◌++◌ (static_part first second) (String.◌++◌ (decimal seconds) random),
        w'',
        rw read rw drawn refl,
        omega (
          arith,
          digits,
          eight,
          text_length-static_part first second,
          text_length-append (static_part first second) (String.◌++◌ (decimal seconds) random),
          text_length-append (decimal seconds) random,
        ),
      )

-- The arguments of a compaction carry what was asked for.
pub record IsCompaction (rack pod keyspace : String) (tables : List String) (args : JobArguments)
    : Type 0 where
  pub placed : (args.rack_name ≡ rack) × (args.pod_name ≡ pod)
  pub compacts : (args.keyspace_name ≡ keyspace) × (args.tables ≡ tables)
  pub nothing_else : args.source_datacenter ≡ ""
  -- tables are compacted only in a keyspace
  pub in_keyspace : (keyspace ≢ "") ⊎ (tables ≡ [])

pub compaction_arguments-cases :
    (rack pod keyspace : String) (tables : List String)
    → ((compaction_arguments rack pod keyspace tables
          ≡ err (message "keyspace must be specified when tables are specified"))
        × (keyspace ≡ "")
        × (tables ≢ []))
      ⊎ ((args : JobArguments) × (compaction_arguments rack pod keyspace tables ≡ ok args)
          × IsCompaction rack pod keyspace tables args)
unfolding compaction_arguments common_arguments
compaction_arguments-cases rack pod keyspace [] = inr (
  _,
  ground arith,
  record {
    placed = (refl, refl);
    compacts = (refl, refl);
    nothing_else = refl;
    in_keyspace = inr refl;
  },
)
compaction_arguments-cases rack pod keyspace (t ∷ ts) = elim (Bool-cases (keyspace == "")) [
  | inl missing ↦
      inl (rw missing ground arith, ground (arith, eq_iff keyspace ""), λ e. ground arith)
  | inr there ↦ inr (
    _,
    rw there ground arith,
    record {
      placed = (refl, refl);
      compacts = (refl, refl);
      nothing_else = refl;
      in_keyspace = inl (λ e. ground (arith, eq_iff keyspace ""));
    },
  )
]
