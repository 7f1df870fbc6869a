-- ===== src/Config/Jvm/Laws.antt =====
-- The lines of a JVM options file, from the options of a node and of its pod.
use k8ssandra_client.Common.{
  ℕ, String, ◌≡◌, sym, ap, subst, ◌∙◌, true, false, some, List, [], ◌∷◌, ◌++◌, Dict, lookup, ok,
  any, All, All-append, All-map, All-delete_func, delete_func, arith, Bool-cases, Option-cases, inl,
  inr, ◌⊎◌,
}
use k8ssandra_client.Config.Types.{Value}
use k8ssandra_client.Config.Format.{format_value}
use k8ssandra_client.Config.Gc.{get_gc_options, mentions_gc}
use k8ssandra_client.Config.Jvm.Merging.{add_current, overridden_by}
use k8ssandra_client.Config.Jvm.Merging.Laws.{
  IsFresh, IsCovered, add_current-IsFresh, add_current-IsCovered,
}
use k8ssandra_client.Config.Jvm.Collectors.{
  NamesNone, NamesOne, mentions_gc-NamesNone, mentions_gc-NamesOne, IsIn, All-IsIn, All-kept,
  All-undelete,
}
use k8ssandra_client.Config.Jvm.Options.{merge_options}
use k8ssandra_client.Config.Jvm.Version.{is_server_options, jvm_version}
use k8ssandra_client.Config.Jvm.{Definitions, target_options, current_options, server_jvm_options}

-- The options of the collector that a value names, for the Java version of a file.
abbrev pub collector_options : Value → String → List String
collector_options gc filename = get_gc_options (format_value gc) (jvm_version filename)

-- A collector is chosen for a file.
abbrev pub IsChosen : String → Dict Value → Value → Type 0
IsChosen filename options gc =
    (is_server_options filename ≡ true) × (lookup "garbage_collector" options ≡ some gc)

-- An option of the base file, or one of the options of a chosen collector.
abbrev pub HasOrigin : String → Dict Value → List String → String → Type 0
HasOrigin filename options current l =
    IsIn current l
    ⊎ ((gc : Value) × IsChosen filename options gc × IsIn (collector_options gc filename) l)

-- An option that one of the lines overrides, if only by itself, or one that contains an option of a
-- collector where a collector is chosen.
abbrev pub IsReplaced : Definitions → String → Dict Value → List String → String → Type 0
IsReplaced defs filename options lines v =
    (any (overridden_by defs.prefix_of v) lines ≡ true)
    ⊎ ((gc : Value) × IsChosen filename options gc × NamesOne (jvm_version filename) v)

-- `lines` are `targets` and then options of the base file `current`, or of the chosen collector, that
-- no line before them overrides, and each option of the base file is replaced by them.
pub record IsMergeOf (defs : Definitions) (filename : String) (options : Dict Value)
    (targets current lines : List String) : Type 0 where
  pub kept : List String
  pub together : lines ≡ targets ++ kept
  pub fresh : IsFresh defs.prefix_of targets kept
  pub origin : All (HasOrigin filename options current) kept
  pub replaced : All (IsReplaced defs filename options lines) current

-- Behind `targets` stand only options that contain none of a collector, or options of `collector`,
-- and each option of `collector` is overridden by one of the lines, if only by itself.
abbrev pub HasCollector : Definitions → ℕ → List String → List String → List String → Type 0
HasCollector defs version collector targets lines =
    (kept : List String) × (lines ≡ targets ++ kept)
    × All (λ l. NamesNone version l ⊎ IsIn collector l) kept
    × IsCovered defs.prefix_of collector lines

All-append_left : (P : String → Type 0) (xs ys : List String) → All P (xs ++ ys) → All P xs
All-append_left P [] ys h = tt
All-append_left P (x ∷ xs) ys (p, h) = (p, All-append_left P xs ys h)

All-append_right : (P : String → Type 0) (xs ys : List String) → All P (xs ++ ys) → All P ys
All-append_right P [] ys h = h
All-append_right P (x ∷ xs) ys (_, h) = All-append_right P xs ys h

module _ (defs : Definitions) (base override : Dict Value) (filename : String)
    (current lines : List String)
    (done : server_jvm_options defs base override filename current ≡ ok lines)
    (options : Dict Value) (t : Dict Value × List String)
    (merged : merge_options base override ≡ ok options)
    (targeted : target_options defs filename options ≡ ok t) where
  lines-eq : lines ≡ add_current defs.prefix_of t.1 (current_options defs filename t.0 current)
  unfolding server_jvm_options
  lines-eq = ground (arith, merged, targeted, done)

  -- The current options: where they come from, and what they leave out of the base file.
  record IsCurrent (currents : List String) : Type 1 where
    origin : All (HasOrigin filename t.0 current) currents
    left_out :
        (P : String → Type 0)
        → All P currents
        → All
            (λ v.
              P v ⊎ ((gc : Value) × IsChosen filename t.0 gc × NamesOne (jvm_version filename) v))
            current

  untouched : IsCurrent current
  untouched = record {
    origin = All-map (IsIn current) (λ l e. inl e) current (All-IsIn current);
    left_out = λ P h. All-map P (λ l p. inl p) current h;
  }

  replaced_by :
      (gc : Value)
      → IsChosen filename t.0 gc
      → IsCurrent (
          delete_func (mentions_gc (jvm_version filename)) current ++ collector_options gc filename)
  replaced_by gc chosen =
      let version = jvm_version filename in
      let mine = collector_options gc filename in
      record {
        origin =
            All-append (HasOrigin filename t.0 current) (delete_func (mentions_gc version) current)
              mine
              (All-kept (HasOrigin filename t.0 current) (mentions_gc version) current
                (All-map (IsIn current) (λ l e. inl e) current (All-IsIn current)))
              (All-map (IsIn mine) (λ l e. inr (gc, chosen, e)) mine (All-IsIn mine));
        left_out = λ P h.
            All-map (λ v. P v ⊎ (mentions_gc version v ≡ true))
              (λ v x. elim x [
                | inl p ↦ inl p
                | inr e ↦ inr (gc, chosen, mentions_gc-NamesOne version v e)
              ])
              current
              (All-undelete P (mentions_gc version) current
                (All-append_left P (delete_func (mentions_gc version) current) mine h));
      }

  current_options-IsCurrent : IsCurrent (current_options defs filename t.0 current)
  unfolding current_options
  current_options-IsCurrent = elim (Bool-cases (is_server_options filename)) [
    | inr other ↦ rw other untouched
    | inl server ↦ elim (Option-cases (lookup "garbage_collector" t.0)) [
      | inl none_set ↦ rw server rw none_set untouched
      | inr (gc, set) ↦ rw server rw set (replaced_by gc (server, set))
    ]
  ]

  -- Where createServerJVMOptions computes its lines, they are the lines that the merged options
  -- ask for, followed by options that no earlier line overrides, each of which is an option of the
  -- base file or, in a server options file with a garbage collector set, one of that collector;
  -- and each option of the base file is overridden by one of the lines, if only by itself, unless
  -- a collector is so set and the option contains one that getGCOptions has for G1GC, CMS,
  -- Shenandoah or ZGC.
  pub server_jvm_options-IsMergeOf : IsMergeOf defs filename t.0 t.1 current lines
  server_jvm_options-IsMergeOf =
      let currents = current_options defs filename t.0 current in
      let is = current_options-IsCurrent in
      let (kept, e, fresh, origin) =
        add_current-IsFresh defs.prefix_of (HasOrigin filename t.0 current) t.1 currents
          is.origin in
      record {
        kept = kept;
        together = lines-eq ∙ e;
        fresh = fresh;
        origin = origin;
        replaced =
            is.left_out (λ v. any (overridden_by defs.prefix_of v) lines ≡ true)
              (subst (IsCovered defs.prefix_of currents) (sym lines-eq)
                (add_current-IsCovered defs.prefix_of t.1 currents));
      }

  module _ (gc : Value) (chosen : lookup "garbage_collector" t.0 ≡ some gc)
      (server : is_server_options filename ≡ true) where
    -- Where the lines of a server options file are computed and a garbage collector is set, each
    -- line behind those that the merged options ask for is an option of that collector or contains
    -- no option that getGCOptions has for G1GC, CMS, Shenandoah or ZGC, and each option of the
    -- collector that is set is overridden by one of the lines, if only by itself.
    pub server_jvm_options-HasCollector :
        HasCollector defs (jvm_version filename) (collector_options gc filename) t.1 lines
    unfolding current_options
    server_jvm_options-HasCollector =
        let currents =
          delete_func (mentions_gc (jvm_version filename)) current
          ++ collector_options gc filename in
        let same : current_options defs filename t.0 current ≡ currents = rw (server, chosen) in
        let version = jvm_version filename in
        let mine = collector_options gc filename in
        let (kept, e, _, allowed) =
          add_current-IsFresh defs.prefix_of (λ l. NamesNone version l ⊎ IsIn mine l) t.1 currents
            (All-append (λ l. NamesNone version l ⊎ IsIn mine l)
              (delete_func (mentions_gc version) current) mine
              (All-map (λ l. mentions_gc version l ≡ false)
                (λ l out. inl (mentions_gc-NamesNone version l out))
                (delete_func (mentions_gc version) current)
                (All-delete_func (mentions_gc version) current))
              (All-map (IsIn mine) (λ l e. inr e) mine (All-IsIn mine))) in
        (
          kept,
          lines-eq ∙ ap (add_current defs.prefix_of t.1) same ∙ e,
          allowed,
          All-append_right _ (delete_func (mentions_gc (jvm_version filename)) current)
              (collector_options gc filename)
              (subst (λ ls. IsCovered defs.prefix_of currents ls)
                (sym (lines-eq ∙ ap (add_current defs.prefix_of t.1) same))
                (add_current-IsCovered defs.prefix_of t.1 currents)),
        )
