-- ===== src/Config/Overrides/Laws.antt =====
-- Merging environment options is associative, with the empty options as its unit.
use k8ssandra_client.Common.{
  is_positive, ◌≡◌, refl, ap, ◌∙◌, List, [], ◌∷◌, ◌++◌, append-nil, append_assoc, not, Bool, sym,
  ◌==◌, leb, length, arith, if◌then◌else◌,
}
use k8ssandra_client.Config.Types.{CassandraEnvOptions}
use k8ssandra_client.Config.Overrides.{merge_cassandra_env_options, empty_env}

-- The test on the length changes nothing: the lists are appended.
append_guarded {ℓ} :
    {A : Type ℓ} (xs ys : List A) → (if leb 1 (length ys) then xs ++ ys else xs) ≡ xs ++ ys
append_guarded xs [] = sym (append-nil xs)
append_guarded xs (y ∷ ys) = ground arith

abbrev joined {ℓ} : {A : Type ℓ} → List A → List A → List A
joined xs ys = if leb 1 (length ys) then xs ++ ys else xs

joined_assoc {ℓ} :
    {A : Type ℓ} (xs ys zs : List A) → joined (joined xs ys) zs ≡ joined xs (joined ys zs)
joined_assoc xs ys zs =
    append_guarded (joined xs ys) zs
    ∙ ap (λ l. l ++ zs) (append_guarded xs ys)
    ∙ append_assoc xs ys zs
    ∙ sym (append_guarded xs (joined ys zs) ∙ ap (λ l. xs ++ l) (append_guarded ys zs))

-- The later value of two, where it passes a test.
later_assoc {ℓ} :
    {A : Type ℓ} (p : A → Bool) (a b c : A)
    → (if p c then c else if p b then b else a)
      ≡ (if p (if p c then c else b) then if p c then c else b else a)
later_assoc p a b c = ground arith

-- Merging the environment options of three sources gives the same options whichever two are merged
-- first.
pub merge_cassandra_env_options_assoc :
    (a b c : CassandraEnvOptions)
    → merge_cassandra_env_options (merge_cassandra_env_options a b) c
      ≡ merge_cassandra_env_options a (merge_cassandra_env_options b c)
unfolding merge_cassandra_env_options
merge_cassandra_env_options_assoc a b c = λ i. record {
  malloc_arena_max =
      later_assoc is_positive a.malloc_arena_max b.malloc_arena_max c.malloc_arena_max i;
  heap_dump_dir =
      later_assoc (λ s. not (s == "")) a.heap_dump_dir b.heap_dump_dir c.heap_dump_dir i;
  additional_opts = joined_assoc a.additional_opts b.additional_opts c.additional_opts i;
}

-- Options that set nothing leave the lower ones as they are, and are replaced by the higher ones.
merge_cassandra_env_options_unit :
    (a : CassandraEnvOptions) → merge_cassandra_env_options a empty_env ≡ a
unfolding merge_cassandra_env_options
merge_cassandra_env_options_unit a = refl
