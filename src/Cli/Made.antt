-- ===== src/Cli/Made.antt =====
-- The tree of commands is made: no flag is declared twice, and each that is required is declared.
use k8ssandra_client.Common.{
  String, Option, some, true, false, List, [], ◌++◌, Result, any, All, ◌≡◌, refl, bind,
}
use k8ssandra_client.Cli.Flags.{Flag, FlagLib, IsFlagLib, has_name, define_all, require_all}
use k8ssandra_client.Cli.Commands.{
  Closure, Command, start_flags, wait_flags, add_flags, builder_flags, upgrade_flags,
  estimate_flags, register_flags, new_start_cmd, new_restart_cmd, new_stop_cmd, new_add_cmd,
  new_builder_cmd, new_upgrade_cmd, new_nodetool_cmd, new_estimate_cmd, register_cluster_cmd,
}
use k8ssandra_client.Cli.Declared.{
  Returns, Returns-bind, declared, declared_shorthands, all_new, HasFlags, IsApart,
  define_all-HasFlags, require_all-HasFlags, require_together-HasFlags, add_config_flags-HasFlags,
  new_flags-HasFlags,
}

module _ {W F : Type 0} (lib : FlagLib F) where
  -- A command with a line of use, flags of certain names, and what it runs.
  pub record IsCommand (use_line : String) (ns : List String) (run_e : Option (Closure W))
      (c : Command W F) : Type 0 where
    pub used : c.use_line ≡ use_line
    pub named : lib.names c.flags ≡ ns
    pub runs : c.run_e ≡ run_e

module _ {W F : Type 0} (lib : FlagLib F) (config_names config_shorthands : List String)
    (laws : IsFlagLib lib config_names config_shorthands) where
  -- Flags of a command's own, and what follows.
  own_flags :
      (P : Command W F → Type 0) (fs : List Flag) (k : F → Result (Command W F))
      → all_new fs [] [] ≡ true
      → ((flags : F)
          → HasFlags lib (declared fs []) (declared_shorthands fs []) flags
          → Returns P (k flags))
      → Returns P (bind (define_all lib fs lib.new_flags) k)
  own_flags P fs k n last =
      Returns-bind (HasFlags lib (declared fs []) (declared_shorthands fs [])) P
        (define_all lib fs lib.new_flags) k
        (define_all-HasFlags lib config_names config_shorthands laws fs [] [] lib.new_flags
          (new_flags-HasFlags lib config_names config_shorthands laws) n)
        last

  -- The flags of the connection, and what follows.
  config_flags :
      (P : Command W F → Type 0) (ns ss : List String) (flags : F) (k : F → Result (Command W F))
      → HasFlags lib ns ss flags
      → any (has_name config_names) ns ≡ false
      → any (has_name config_shorthands) ss ≡ false
      → ((flags' : F)
          → HasFlags lib (ns ++ config_names) (ss ++ config_shorthands) flags'
          → Returns P (k flags'))
      → Returns P (bind (lib.add_config_flags flags) k)
  config_flags P ns ss flags k h a b last =
      Returns-bind (HasFlags lib (ns ++ config_names) (ss ++ config_shorthands)) P
        (lib.add_config_flags flags) k
        (add_config_flags-HasFlags lib config_names config_shorthands laws ns ss flags h a b) last

  -- Flags that are required, and what follows.
  required_flags :
      (P : Command W F → Type 0) (required ns ss : List String) (flags : F)
      (k : F → Result (Command W F))
      → HasFlags lib ns ss flags
      → All (λ n. has_name ns n ≡ true) required
      → ((flags' : F) → HasFlags lib ns ss flags' → Returns P (k flags'))
      → Returns P (bind (require_all lib required flags) k)
  required_flags P required ns ss flags k h all last =
      Returns-bind (HasFlags lib ns ss) P (require_all lib required flags) k
        (require_all-HasFlags lib config_names config_shorthands laws required ns ss flags h all)
        last

  own_and_config :
      (P : Command W F → Type 0) (fs : List Flag) (k : F → Result (Command W F))
      → all_new fs [] [] ≡ true
      → IsApart config_names config_shorthands fs
      → ((flags : F)
          → HasFlags lib
              (declared fs [] ++ config_names)
              (declared_shorthands fs [] ++ config_shorthands)
              flags
          → Returns P (k flags))
      → Returns P (bind (define_all lib fs lib.new_flags) (λ f. bind (lib.add_config_flags f) k))
  own_and_config P fs k n (a, b) last =
      own_flags P fs (λ f. bind (lib.add_config_flags f) k) n
        (λ flags h. config_flags P (declared fs []) (declared_shorthands fs []) flags k h a b last)

  pub new_start_cmd-IsCommand :
      (run_e : Closure W)
      → IsApart config_names config_shorthands start_flags
      → Returns
          (IsCommand lib "start [cluster]" (declared start_flags [] ++ config_names) (some run_e))
          (new_start_cmd lib run_e)
  unfolding new_start_cmd
  new_start_cmd-IsCommand run_e apart =
      own_and_config _ start_flags _ refl apart
        (λ flags h. (_, refl, record { used = refl; named = h.names; runs = refl }))

  pub new_restart_cmd-IsCommand :
      (run_e : Closure W)
      → IsApart config_names config_shorthands wait_flags
      → Returns
          (IsCommand lib "restart [cluster]" (declared wait_flags [] ++ config_names) (some run_e))
          (new_restart_cmd lib run_e)
  unfolding new_restart_cmd
  new_restart_cmd-IsCommand run_e apart =
      own_and_config _ wait_flags _ refl apart
        (λ flags h. (_, refl, record { used = refl; named = h.names; runs = refl }))

  pub new_stop_cmd-IsCommand :
      (run_e : Closure W)
      → IsApart config_names config_shorthands wait_flags
      → Returns
          (IsCommand lib "stop [cluster]" (declared wait_flags [] ++ config_names) (some run_e))
          (new_stop_cmd lib run_e)
  unfolding new_stop_cmd
  new_stop_cmd-IsCommand run_e apart =
      own_and_config _ wait_flags _ refl apart
        (λ flags h. (_, refl, record { used = refl; named = h.names; runs = refl }))

  pub new_add_cmd-IsCommand :
      (run_e : Closure W)
      → IsApart config_names config_shorthands add_flags
      → Returns
          (IsCommand lib "add [flags]" (declared add_flags [] ++ config_names) (some run_e))
          (new_add_cmd lib run_e)
  unfolding new_add_cmd
  new_add_cmd-IsCommand run_e apart =
      own_and_config _ add_flags _ refl apart
        (λ flags h. (_, refl, record { used = refl; named = h.names; runs = refl }))

  pub new_builder_cmd-IsCommand :
      (run_e : Closure W)
      → IsApart config_names config_shorthands builder_flags
      → Returns
          (IsCommand lib "build [flags]" (declared builder_flags [] ++ config_names) (some run_e))
          (new_builder_cmd lib run_e)
  unfolding new_builder_cmd
  new_builder_cmd-IsCommand run_e apart =
      own_and_config _ builder_flags _ refl apart
        (λ flags h. (_, refl, record { used = refl; named = h.names; runs = refl }))

  pub new_nodetool_cmd-IsCommand :
      (run_e : Closure W)
      → Returns
          (IsCommand lib "nodetool [pod] [flags]" config_names (some run_e))
          (new_nodetool_cmd lib run_e)
  unfolding new_nodetool_cmd
  new_nodetool_cmd-IsCommand run_e =
      config_flags _ [] [] lib.new_flags _
        (new_flags-HasFlags lib config_names config_shorthands laws) refl refl
        (λ flags h. (_, refl, record { used = refl; named = h.names; runs = refl }))

  pub new_upgrade_cmd-IsCommand :
      (run_e : Closure W)
      → IsApart config_names config_shorthands upgrade_flags
      → Returns
          (IsCommand lib "upgrade [flags]" (declared upgrade_flags [] ++ config_names) (some run_e))
          (new_upgrade_cmd lib run_e)
  unfolding new_upgrade_cmd
  new_upgrade_cmd-IsCommand run_e apart = own_and_config _ upgrade_flags _ refl apart (λ flags h.
      required_flags _ _ (declared upgrade_flags [] ++ config_names) _ flags _ h (refl, (refl, tt))
        (λ flags' h'. (_, refl, record { used = refl; named = h'.names; runs = refl })))

  pub new_estimate_cmd-IsCommand :
      (run_e : Closure W)
      → IsApart config_names config_shorthands estimate_flags
      → Returns
          (IsCommand lib "estimate [flags]"
            (declared estimate_flags [] ++ config_names)
            (some run_e))
          (new_estimate_cmd lib run_e)
  unfolding new_estimate_cmd
  new_estimate_cmd-IsCommand run_e (a, b) = own_flags _ estimate_flags _ refl (λ flags h.
      required_flags _ _ (declared estimate_flags []) _ flags _ h (refl, (refl, (refl, tt)))
        (λ flags' h'.
          config_flags _ _ _ flags' _ h' a b
            (λ flags'' h''. (_, refl, record { used = refl; named = h''.names; runs = refl }))))

  pub register_cluster_cmd-IsCommand :
      (run_e : Closure W)
      → Returns
          (IsCommand lib "register [flags]" (declared register_flags []) (some run_e))
          (register_cluster_cmd lib run_e)
  unfolding register_cluster_cmd
  register_cluster_cmd-IsCommand run_e = own_flags _ register_flags _ refl (λ flags h.
      required_flags _ _ (declared register_flags []) _ flags _ h (refl, (refl, tt))
        (λ flags' h'.
          Returns-bind _ _ _ _
            (require_together-HasFlags lib config_names config_shorthands laws _
              (declared register_flags []) _ flags' h' refl)
            (λ flags'' h''. (_, refl, record { used = refl; named = h''.names; runs = refl }))))
