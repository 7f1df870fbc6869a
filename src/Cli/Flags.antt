-- ===== src/Cli/Flags.antt =====
-- The flags that a command declares, over the flag sets of pflag and cobra.
use k8ssandra_client.Common.{
  ℤ, String, Bool, true, false, List, [], ◌∷◌, ◌++◌, Result, ok, err, panic, any, ◌==◌, ◌≡◌,
  if◌then◌else◌, ◌>>=◌,
}

-- A value of a flag, which is also the form of its default.
pub data Value : Type 0 where
  switch : Bool → Value
  number : ℤ → Value
  text : String → Value
  texts : List String → Value

-- BoolVar, StringVar, IntVar, StringSliceVar and Flags().String; the shorthand is empty where the
-- flag has none. The usage text is left out.
pub record Flag : Type 0 where
  pub name : String
  pub shorthand : String
  pub default : Value

abbrev pub flag : String → Value → Flag
flag name default = record { name = name; shorthand = ""; default = default }

abbrev pub short_flag : String → String → Value → Flag
short_flag name shorthand default = record { name = name; shorthand = shorthand; default = default }

-- What the commands call of pflag and cobra: a new set, a declaration, which panics where a flag has
-- the name or the shorthand already, the flags of genericclioptions.ConfigFlags, MarkFlagRequired,
-- and MarkFlagsRequiredTogether, which panics at a flag that is not declared.
pub record FlagLib (F : Type 0) : Type 0 where
  pub new_flags : F
  pub define : Flag → F → Result F
  pub add_config_flags : F → Result F
  pub mark_required : String → F → Result F
  pub mark_required_together : List String → F → Result F
  -- the names and the shorthands of a set
  pub names : F → List String
  pub shorthands : F → List String

-- `if err := ...; err != nil { panic(err) }`
unfoldable pub must : {A : Type 0} → Result A → Result A
must (ok a) = ok a
must (err e) = panic
must panic = panic

module _ {F : Type 0} (lib : FlagLib F) where
  -- Declarations one after the other.
  unfoldable pub define_all : List Flag → F → Result F
  define_all [] flags = ok flags
  define_all (f ∷ fs) flags = do flags' ← lib.define f flags; define_all fs flags'

  -- Marks one after the other, each of which has to succeed.
  unfoldable pub require_all : List String → F → Result F
  require_all [] flags = ok flags
  require_all (n ∷ ns) flags = do flags' ← must (lib.mark_required n flags); require_all ns flags'

abbrev pub has_name : List String → String → Bool
has_name names n = any (λ m. m == n) names

abbrev pub with_shorthand : String → List String → List String
with_shorthand s shorthands = if s == "" then shorthands else s ∷ shorthands

-- Documented behaviour, for the names and shorthands that ConfigFlags declares.
pub record IsFlagLib {F : Type 0} (lib : FlagLib F) (config_names config_shorthands : List String)
    : Type 0 where
  pub new_names : lib.names lib.new_flags ≡ []
  pub new_shorthands : lib.shorthands lib.new_flags ≡ []
  pub defines :
      (f : Flag) (flags : F)
      → has_name (lib.names flags) f.name ≡ false
      → has_name (lib.shorthands flags) f.shorthand ≡ false
      → (flags' : F) × (lib.define f flags ≡ ok flags')
        × (lib.names flags' ≡ f.name ∷ lib.names flags)
        × (lib.shorthands flags' ≡ with_shorthand f.shorthand (lib.shorthands flags))
  pub configures :
      (flags : F)
      → any (has_name config_names) (lib.names flags) ≡ false
      → any (has_name config_shorthands) (lib.shorthands flags) ≡ false
      → (flags' : F) × (lib.add_config_flags flags ≡ ok flags')
        × (lib.names flags' ≡ lib.names flags ++ config_names)
        × (lib.shorthands flags' ≡ lib.shorthands flags ++ config_shorthands)
  pub requires :
      (n : String) (flags : F)
      → has_name (lib.names flags) n ≡ true
      → (flags' : F) × (lib.mark_required n flags ≡ ok flags')
        × (lib.names flags' ≡ lib.names flags)
        × (lib.shorthands flags' ≡ lib.shorthands flags)
  pub requires_together :
      (ns : List String) (flags : F)
      → any (λ n. if has_name (lib.names flags) n then false else true) ns ≡ false
      → (flags' : F) × (lib.mark_required_together ns flags ≡ ok flags')
        × (lib.names flags' ≡ lib.names flags)
        × (lib.shorthands flags' ≡ lib.shorthands flags)
