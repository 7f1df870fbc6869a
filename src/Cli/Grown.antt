-- ===== src/Cli/Grown.antt =====
-- What NewCmd returns: the whole tree.
use k8ssandra_client.Common.{String, Option, none, some, List, [], ◌++◌, Result, refl, bind}
use k8ssandra_client.Cli.Flags.{FlagLib, IsFlagLib}
use k8ssandra_client.Cli.Commands.{
  Closure, Command, start_flags, wait_flags, add_flags, builder_flags, upgrade_flags,
  estimate_flags, register_flags,
}
use k8ssandra_client.Cli.Groups.{
  Programs, Tree, node, Forest, nil, cons, only, leaf, group, new_users_cmd, new_config_cmd,
  new_helm_cmd, new_tools_cmd, new_cmd,
}
use k8ssandra_client.Cli.Declared.{
  Returns, Returns-bind, declared, IsApart, add_config_flags-HasFlags, new_flags-HasFlags,
}
use k8ssandra_client.Cli.Made.{
  IsCommand, new_start_cmd-IsCommand, new_restart_cmd-IsCommand, new_stop_cmd-IsCommand,
  new_add_cmd-IsCommand, new_builder_cmd-IsCommand, new_nodetool_cmd-IsCommand,
  new_upgrade_cmd-IsCommand, new_estimate_cmd-IsCommand, register_cluster_cmd-IsCommand,
}

-- A tree of commands as it is expected: for each command its line of use, the names of its flags, what
-- it runs, and its subcommands.
mutual
  pub data Shape (W : Type 0) : Type 0 where
    shape : String → List String → Option (Closure W) → Shapes W → Shape W

  pub data Shapes (W : Type 0) : Type 0 where
    no_more : Shapes W
    also : Shape W → Shapes W → Shapes W

module _ {W F : Type 0} (lib : FlagLib F) where
  mutual
    pub HasShape : Shape W → Tree W F → Type 0
    HasShape (shape use_line ns run_e children) (node c forest) =
        IsCommand lib use_line ns run_e c × HaveShapes children forest

    pub HaveShapes : Shapes W → Forest W F → Type 0
    HaveShapes no_more nil = Unit
    HaveShapes no_more (cons t ts) = ⊥
    HaveShapes (also s ss) nil = ⊥
    HaveShapes (also s ss) (cons t ts) = HasShape s t × HaveShapes ss ts

-- No flag of a command has the name or the shorthand of a connection flag.
abbrev pub AreApart : List String → List String → Type 0
AreApart config_names config_shorthands =
    IsApart config_names config_shorthands start_flags
    × IsApart config_names config_shorthands wait_flags
    × IsApart config_names config_shorthands add_flags
    × IsApart config_names config_shorthands builder_flags
    × IsApart config_names config_shorthands upgrade_flags
    × IsApart config_names config_shorthands estimate_flags

abbrev alone : {W : Type 0} → String → List String → Closure W → Shape W
alone use_line ns run_e = shape use_line ns (some run_e) no_more

abbrev above : {W : Type 0} → List String → String → Shapes W → Shape W
above config_names use_line children = shape use_line config_names none children

-- The commands of the program.
abbrev pub program_shapes : {W : Type 0} → List String → Programs W → Shapes W
program_shapes config_names programs =
    also (alone "start [cluster]" (declared start_flags [] ++ config_names) programs.start) (
      also (alone "restart [cluster]" (declared wait_flags [] ++ config_names) programs.restart) (
        also (alone "stop [cluster]" (declared wait_flags [] ++ config_names) programs.stop) (
          also
            (above config_names "users [subcommand] [flags]" (
              also (alone "add [flags]" (declared add_flags [] ++ config_names) programs.add)
                no_more))
            (also
              (above config_names "config [subcommand] [flags]" (
                also
                  (alone "build [flags]" (declared builder_flags [] ++ config_names) programs.build)
                  no_more))
              (also
                (above config_names "helm [subcommand] [flags]" (
                  also
                    (alone "upgrade [flags]" (declared upgrade_flags [] ++ config_names)
                      programs.upgrade)
                    no_more))
                (also (alone "nodetool [pod] [flags]" config_names programs.nodetool) (
                  also
                    (above config_names "tools [subcommand] [flags]" (
                      also
                        (alone "estimate [flags]" (declared estimate_flags [] ++ config_names)
                          programs.estimate)
                        no_more))
                    (also (alone "register [flags]" (declared register_flags []) programs.register)
                      no_more))))))))

abbrev pub program_shape : {W : Type 0} → List String → Programs W → Shape W
program_shape config_names programs =
    above config_names "k8ssandra [subcommand] [flags]" (program_shapes config_names programs)

module _ {W F : Type 0} (lib : FlagLib F) (config_names config_shorthands : List String)
    (laws : IsFlagLib lib config_names config_shorthands) where
  group-HasShape :
      (use_line : String) (children : Forest W F) (shapes : Shapes W)
      → HaveShapes lib shapes children
      → Returns (HasShape lib (above config_names use_line shapes)) (group lib use_line children)
  unfolding group HasShape
  group-HasShape use_line children shapes h =
      Returns-bind _ _ _ _
        (add_config_flags-HasFlags lib config_names config_shorthands laws [] [] lib.new_flags
          (new_flags-HasFlags lib config_names config_shorthands laws) refl refl)
        (λ flags f. (_, refl, (record { used = refl; named = f.names; runs = refl }, h)))

  -- A group around one command.
  around-HasShape :
      (use_line inner : String) (ns : List String) (run_e : Closure W) (m : Result (Command W F))
      → Returns (IsCommand lib inner ns (some run_e)) m
      → Returns
          (HasShape lib (above config_names use_line (also (alone inner ns run_e) no_more)))
          (bind m (λ c. group lib use_line (only c)))
  unfolding HasShape HaveShapes
  around-HasShape use_line inner ns run_e m r =
      Returns-bind _ _ m _ r (λ c h.
        group-HasShape use_line (only c) (also (alone inner ns run_e) no_more) ((h, tt), tt))

  -- Where pflag and cobra work as documented, and no flag of a command has the name or the
  -- shorthand of a connection flag, NewCmd panics nowhere and returns the tree of the commands,
  -- each with its line of use, with the flags that it declares and, but for register, those of the
  -- connection, and with what it runs.
  pub new_cmd-HasShape :
      (programs : Programs W)
      → AreApart config_names config_shorthands
      → Returns (HasShape lib (program_shape config_names programs)) (new_cmd lib programs)
  unfolding new_cmd new_users_cmd new_config_cmd new_helm_cmd new_tools_cmd HasShape HaveShapes
  new_cmd-HasShape programs (a, b, c, d, e, f) =
      let (start, e0, h0) =
        new_start_cmd-IsCommand lib config_names config_shorthands laws programs.start a in
      let (restart, e1, h1) =
        new_restart_cmd-IsCommand lib config_names config_shorthands laws programs.restart b in
      let (stop, e2, h2) =
        new_stop_cmd-IsCommand lib config_names config_shorthands laws programs.stop b in
      let (users, e3, h3) =
        around-HasShape _ _ _ _ _
          (new_add_cmd-IsCommand lib config_names config_shorthands laws programs.add c) in
      let (config, e4, h4) =
        around-HasShape _ _ _ _ _
          (new_builder_cmd-IsCommand lib config_names config_shorthands laws programs.build d) in
      let (helm, e5, h5) =
        around-HasShape _ _ _ _ _
          (new_upgrade_cmd-IsCommand lib config_names config_shorthands laws programs.upgrade e) in
      let (nodetool, e6, h6) =
        new_nodetool_cmd-IsCommand lib config_names config_shorthands laws programs.nodetool in
      let (tools, e7, h7) =
        around-HasShape _ _ _ _ _ (
          new_estimate_cmd-IsCommand lib config_names config_shorthands laws programs.estimate f) in
      let (register, e8, h8) =
        register_cluster_cmd-IsCommand lib config_names config_shorthands laws programs.register in
      let (root, made, h) =
        group-HasShape "k8ssandra [subcommand] [flags]"
          (cons (leaf start) (
            cons (leaf restart) (
              cons (leaf stop) (
                cons users (
                  cons config
                    (cons helm (cons (leaf nodetool) (cons tools (cons (leaf register) nil)))))))))
          (program_shapes config_names programs)
          ((h0, tt), ((h1, tt), ((h2, tt), (h3, (h4, (h5, ((h6, tt), (h7, ((h8, tt), tt))))))))) in
      (root, rw (e0, e1, e2, e3, e4, e5, e6, e7, e8) made, h)
