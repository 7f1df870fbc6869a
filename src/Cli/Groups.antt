-- ===== src/Cli/Groups.antt =====
-- The commands that have subcommands: the packages' NewCmd, NewHelmCmd and NewToolsCmd, NewCmd of
-- k8ssandra/k8ssandra.go, which makes the root, and main.go.
use k8ssandra_client.Common.{ℕ, String, false, none, Result, ok, err, panic, ◌>>=◌}
use k8ssandra_client.Common.Exec.{Exec}
use k8ssandra_client.Cli.Flags.{FlagLib}
use k8ssandra_client.Cli.Commands.{
  Closure, Command, new_start_cmd, new_restart_cmd, new_stop_cmd, new_add_cmd, new_builder_cmd,
  new_upgrade_cmd, new_nodetool_cmd, new_estimate_cmd, register_cluster_cmd,
}

-- What the commands run.
pub record Programs (W : Type 0) : Type 0 where
  pub start : Closure W
  pub restart : Closure W
  pub stop : Closure W
  pub add : Closure W
  pub build : Closure W
  pub upgrade : Closure W
  pub nodetool : Closure W
  pub estimate : Closure W
  pub register : Closure W

-- A command with the subcommands that AddCommand gave it, in order.
mutual
  pub data Tree (W F : Type 0) : Type 0 where
    node : Command W F → Forest W F → Tree W F

  pub data Forest (W F : Type 0) : Type 0 where
    nil : Forest W F
    cons : Tree W F → Forest W F → Forest W F

module _ {W F : Type 0} where
  abbrev pub leaf : Command W F → Tree W F
  leaf c = node c nil

  abbrev pub only : Command W F → Forest W F
  only c = cons (leaf c) nil

module _ {W F : Type 0} (lib : FlagLib F) where
  -- A command that runs nothing itself.
  unfoldable pub group : String → Forest W F → Result (Tree W F)
  group use_line children = do
    flags ← lib.add_config_flags lib.new_flags
    ok (
        node (record { use_line = use_line; silence_usage = false; flags = flags; run_e = none })
          children)

  unfoldable pub new_users_cmd : Closure W → Result (Tree W F)
  new_users_cmd run_e = do
    add ← new_add_cmd lib run_e
    group "users [subcommand] [flags]" (only add)

  unfoldable pub new_config_cmd : Closure W → Result (Tree W F)
  new_config_cmd run_e = do
    build ← new_builder_cmd lib run_e
    group "config [subcommand] [flags]" (only build)

  unfoldable pub new_helm_cmd : Closure W → Result (Tree W F)
  new_helm_cmd run_e = do
    upgrade ← new_upgrade_cmd lib run_e
    group "helm [subcommand] [flags]" (only upgrade)

  unfoldable pub new_tools_cmd : Closure W → Result (Tree W F)
  new_tools_cmd run_e = do
    estimate ← new_estimate_cmd lib run_e
    group "tools [subcommand] [flags]" (only estimate)

  unfoldable pub new_cmd : Programs W → Result (Tree W F)
  new_cmd programs = do
    start ← new_start_cmd lib programs.start
    restart ← new_restart_cmd lib programs.restart
    stop ← new_stop_cmd lib programs.stop
    users ← new_users_cmd programs.add
    config ← new_config_cmd programs.build
    helm ← new_helm_cmd programs.upgrade
    nodetool ← new_nodetool_cmd lib programs.nodetool
    tools ← new_tools_cmd programs.estimate
    register ← register_cluster_cmd lib programs.register
    group "k8ssandra [subcommand] [flags]" (
        cons (leaf start) (
          cons (leaf restart) (
            cons (leaf stop) (
              cons users (
                cons config
                  (cons helm (cons (leaf nodetool) (cons tools (cons (leaf register) nil)))))))))

-- The exit code of main: `execute` is root.Execute, and a panic ends a Go program with code 2.
unfoldable pub exit_code : Result (Unit {0}) → ℕ
exit_code (ok u) = 0
exit_code (err e) = 1
exit_code panic = 2

module _ {W F : Type 0} (lib : FlagLib F) (execute : Tree W F → Exec W (Unit {0})) where
  unfoldable pub main : Programs W → W → ℕ × W
  main programs w = elim (new_cmd lib programs) [
    | ok root ↦ (exit_code (execute root w).0, (execute root w).1)
    | err e ↦ (1, w)
    | panic ↦ (2, w)
  ]
