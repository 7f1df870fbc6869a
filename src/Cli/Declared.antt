-- ===== src/Cli/Declared.antt =====
-- How flags come to be declared: no declaration meets a name or a shorthand that is there.
use k8ssandra_client.Common.{
  String, Bool, true, false, not, ◌&&◌, List, [], ◌∷◌, ◌++◌, Result, ok, any, All, ◌≡◌, refl, ap,
  ◌∙◌, arith, bind, if◌then◌else◌,
}
use k8ssandra_client.Cli.Flags.{
  Flag, FlagLib, IsFlagLib, define_all, require_all, must, has_name, with_shorthand,
}

-- The call returns a value with a property.
abbrev pub Returns : {A : Type 0} → (A → Type 0) → Result A → Type 0
Returns {A} P r = (a : A) × (r ≡ ok a) × P a

pub Returns-bind :
    {A B : Type 0} (P : A → Type 0) (Q : B → Type 0) (m : Result A) (k : A → Result B)
    → Returns P m
    → ((a : A) → P a → Returns Q (k a))
    → Returns Q (bind m k)
Returns-bind P Q m k (a, e, p) f = let (b, e', q) = f a p in (b, ap (λ r. bind r k) e ∙ e', q)

-- The names and the shorthands after declarations, the last one first.
abbrev pub declared : List Flag → List String → List String
declared [] ns = ns
declared (f ∷ fs) ns = declared fs (f.name ∷ ns)

abbrev pub declared_shorthands : List Flag → List String → List String
declared_shorthands [] ss = ss
declared_shorthands (f ∷ fs) ss = declared_shorthands fs (with_shorthand f.shorthand ss)

-- No declaration meets its name or its shorthand.
abbrev pub all_new : List Flag → List String → List String → Bool
all_new [] ns ss = true
all_new (f ∷ fs) ns ss =
    not (has_name ns f.name)
    && not (has_name ss f.shorthand)
    && all_new fs (f.name ∷ ns) (with_shorthand f.shorthand ss)

three_tests : (a b c : Bool) → (not a && not b && c) ≡ true → (a ≡ false) × (b ≡ false) × (c ≡ true)
three_tests a b c h = ground arith

module _ {F : Type 0} (lib : FlagLib F) where
  pub record HasFlags (ns ss : List String) (flags : F) : Type 0 where
    pub names : lib.names flags ≡ ns
    pub shorthands : lib.shorthands flags ≡ ss

-- None of the flags has the name or the shorthand of a connection flag.
abbrev pub IsApart : List String → List String → List Flag → Type 0
IsApart config_names config_shorthands fs =
    (any (has_name config_names) (declared fs []) ≡ false)
    × (any (has_name config_shorthands) (declared_shorthands fs []) ≡ false)

module _ {F : Type 0} (lib : FlagLib F) (config_names config_shorthands : List String)
    (laws : IsFlagLib lib config_names config_shorthands) where
  pub define_all-HasFlags :
      (fs : List Flag) (ns ss : List String) (flags : F)
      → HasFlags lib ns ss flags
      → all_new fs ns ss ≡ true
      → Returns
          (HasFlags lib (declared fs ns) (declared_shorthands fs ss))
          (define_all lib fs flags)
  unfolding define_all
  define_all-HasFlags [] ns ss flags h n = (flags, refl, h)
  define_all-HasFlags (f ∷ fs) ns ss flags h n =
      let (new_name, new_shorthand, others) = three_tests _ _ _ n in
      Returns-bind (HasFlags lib (f.name ∷ ns) (with_shorthand f.shorthand ss))
        (HasFlags lib (declared fs (f.name ∷ ns))
          (declared_shorthands fs (with_shorthand f.shorthand ss)))
        (lib.define f flags) (define_all lib fs)
        (let (flags', e, a, b) =
            laws.defines f flags (ap (λ l. has_name l f.name) h.names ∙ new_name)
              (ap (λ l. has_name l f.shorthand) h.shorthands ∙ new_shorthand) in
          (
            flags',
            e,
            record {
              names = a ∙ ap (λ l. f.name ∷ l) h.names;
              shorthands = b ∙ ap (with_shorthand f.shorthand) h.shorthands;
            },
          ))
        (λ flags' h'.
          define_all-HasFlags fs (f.name ∷ ns) (with_shorthand f.shorthand ss) flags' h' others)

  pub require_all-HasFlags :
      (required ns ss : List String) (flags : F)
      → HasFlags lib ns ss flags
      → All (λ n. has_name ns n ≡ true) required
      → Returns (HasFlags lib ns ss) (require_all lib required flags)
  unfolding require_all must
  require_all-HasFlags [] ns ss flags h a = (flags, refl, h)
  require_all-HasFlags (n ∷ required) ns ss flags h (there, others) =
      Returns-bind (HasFlags lib ns ss) (HasFlags lib ns ss) (must (lib.mark_required n flags))
        (require_all lib required)
        (let (flags', e, a, b) = laws.requires n flags (ap (λ l. has_name l n) h.names ∙ there) in
          (flags', ap must e, record { names = a ∙ h.names; shorthands = b ∙ h.shorthands }))
        (λ flags' h'. require_all-HasFlags required ns ss flags' h' others)

  pub add_config_flags-HasFlags :
      (ns ss : List String) (flags : F)
      → HasFlags lib ns ss flags
      → any (has_name config_names) ns ≡ false
      → any (has_name config_shorthands) ss ≡ false
      → Returns
          (HasFlags lib (ns ++ config_names) (ss ++ config_shorthands))
          (lib.add_config_flags flags)
  add_config_flags-HasFlags ns ss flags h n s =
      let (flags', e, a, b) =
        laws.configures flags (ap (any (has_name config_names)) h.names ∙ n)
          (ap (any (has_name config_shorthands)) h.shorthands ∙ s) in
      (
        flags',
        e,
        record {
          names = a ∙ ap (λ l. l ++ config_names) h.names;
          shorthands = b ∙ ap (λ l. l ++ config_shorthands) h.shorthands;
        },
      )

  pub require_together-HasFlags :
      (required ns ss : List String) (flags : F)
      → HasFlags lib ns ss flags
      → any (λ n. if has_name ns n then false else true) required ≡ false
      → Returns (HasFlags lib ns ss) (lib.mark_required_together required flags)
  require_together-HasFlags required ns ss flags h all =
      let (flags', e, a, b) =
        laws.requires_together required flags
          (ap (λ l. any (λ n. if has_name l n then false else true) required) h.names ∙ all) in
      (flags', e, record { names = a ∙ h.names; shorthands = b ∙ h.shorthands })

  pub new_flags-HasFlags : HasFlags lib [] [] lib.new_flags
  new_flags-HasFlags = record { names = laws.new_names; shorthands = laws.new_shorthands }
