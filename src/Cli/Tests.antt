-- ===== src/Cli/Tests.antt =====
-- The tree over a flag set that holds the names, and a start with and without --rack.
use k8ssandra_client.Common.{
  ℕ, ◌+◌, String, Bool, true, false, ◌||◌, Option, some, List, [], ◌∷◌, ◌++◌, Result, ok, err,
  panic, any, message, not_found, ◌==◌, ◌≡◌, refl, ap, arith, if◌then◌else◌,
}
use k8ssandra_client.Common.Exec.{Exec, pure, raise, ◌>>=◌}
use k8ssandra_client.Common.Poll.{Poll}
use k8ssandra_client.Tasks.Create.{TaskClient, CassandraTask}
use k8ssandra_client.Datacenter.Fetch.{
  condition_true, CassandraDatacenter, Client, cassandra_datacenter,
}
use k8ssandra_client.Datacenter.Manage.{modify_stopped_state}
use k8ssandra_client.Datacenter.Operate.{complete, validate, run, run_command}
use k8ssandra_client.Cli.Runs.{text_of, run_start}
use k8ssandra_client.Cli.Flags.{switch, text, Flag, FlagLib, IsFlagLib, has_name, with_shorthand}
use k8ssandra_client.Cli.Commands.{Values, Closure}
use k8ssandra_client.Cli.Groups.{Programs, new_cmd}
use k8ssandra_client.Cli.Declared.{Returns}
use k8ssandra_client.Cli.Grown.{HasShape, program_shape, new_cmd-HasShape}

-- The names and the shorthands of a flag set.
record Declarations : Type 0 where
  names : List String
  shorthands : List String

abbrev with_flag : Flag → Declarations → Declarations
with_flag f d = record {
  names = f.name ∷ d.names;
  shorthands = with_shorthand f.shorthand d.shorthands;
}

abbrev declare : Flag → Declarations → Result Declarations
declare f d =
    if has_name d.names f.name || has_name d.shorthands f.shorthand
    then panic
    else ok (with_flag f d)

abbrev config_names : List String
config_names = "kubeconfig" ∷ "context" ∷ "namespace" ∷ "server" ∷ []

abbrev config_shorthands : List String
config_shorthands = "n" ∷ "s" ∷ []

abbrev configured : Declarations → Declarations
configured d = record {
  names = d.names ++ config_names;
  shorthands = d.shorthands ++ config_shorthands;
}

abbrev clashes : Declarations → Bool
clashes d = any (has_name config_names) d.names || any (has_name config_shorthands) d.shorthands

abbrev lib : FlagLib Declarations
lib = record {
  new_flags = record { names = []; shorthands = [] };
  define = declare;
  add_config_flags = λ d. if clashes d then panic else ok (configured d);
  mark_required = λ n d. if has_name d.names n then ok d else err (message "no such flag");
  mark_required_together =
      λ ns d. if any (λ n. if has_name d.names n then false else true) ns then panic else ok d;
  names = λ d. d.names;
  shorthands = λ d. d.shorthands;
}

either : (a b : Bool) → a ≡ false → b ≡ false → (a || b) ≡ false
either a b p q = ground arith

lib-IsFlagLib : IsFlagLib lib config_names config_shorthands
lib-IsFlagLib = record {
  new_names = refl;
  new_shorthands = refl;
  defines = λ f d p q. (
    with_flag f d,
    ap (λ b. if b then panic else ok (with_flag f d)) (either _ _ p q),
    refl,
    refl,
  );
  configures = λ d p q.
      (configured d, ap (λ b. if b then panic else ok (configured d)) (either _ _ p q), refl, refl);
  requires = λ n d p. (d, ap (λ b. if b then ok d else err (message "no such flag")) p, refl, refl);
  requires_together = λ ns d p. (d, ap (λ b. if b then panic else ok d) p, refl, refl);
}

abbrev idle : Closure ℕ
idle values args w = (ok tt, w)

abbrev programs : Programs ℕ
programs = record {
  start = idle;
  restart = idle;
  stop = idle;
  add = idle;
  build = idle;
  upgrade = idle;
  nodetool = idle;
  estimate = idle;
  register = λ values args w. (ok tt, w + 1);
}

new_cmd-HasShape_example :
    Returns (HasShape lib (program_shape config_names programs)) (new_cmd lib programs)
new_cmd-HasShape_example =
    new_cmd-HasShape lib config_names config_shorthands lib-IsFlagLib programs
      ((refl, refl), (refl, refl), (refl, refl), (refl, refl), (refl, refl), (refl, refl))

-- One datacenter, and a poll that asks once.
abbrev server : Client CassandraDatacenter
server = record {
  get_datacenter = λ namespace name held.
      if held.name == name then (ok held, held) else (err (not_found "datacenter"), held);
  update_datacenter = λ dc held. (ok dc, dc);
  get_pod = λ namespace name held. (err (not_found "pod"), held);
  get_owners = λ namespace name held. (err (not_found "statefulset"), held);
  list_pods = λ namespace label value held. (ok [], held);
  get_secret = λ namespace name held. (err (not_found "secret"), held);
}

abbrev poll_once : Poll CassandraDatacenter
poll_once interval timeout condition w =
    (condition >>= λ b. if b then pure tt else raise (message "timeout")) w

abbrev creator : Values → TaskClient CassandraDatacenter CassandraTask
creator values = record {
  now = λ w. (ok 17, w);
  intn = λ n w. (ok 3, w);
  command_text = λ c. "restart";
  create = λ t w. (ok t, w);
}

abbrev waits : Values
waits name = if name == "wait" then switch true else text ""

abbrev waits_for_rack : Values
waits_for_rack name =
    if name == "wait" then switch true else if name == "rack" then text "r1" else text ""

abbrev connect : Values → Exec CassandraDatacenter String
connect values w =
    (ok (if text_of (values "namespace") == "" then "ns" else text_of (values "namespace")), w)

abbrev client : Values → Client CassandraDatacenter
client values = server

abbrev done_at : Values → String → String → Exec CassandraDatacenter (Option ℕ)
done_at values name namespace w = (ok (some 5), w)

-- A start of a datacenter that is stopped, by its flags and its arguments.
abbrev dc1 : CassandraDatacenter
dc1 = record {
  name = "dc1";
  namespace = "ns";
  resource_version = "7";
  stopped = true;
  config = "";
  other_spec = "";
  condition = λ c. condition_true;
}

abbrev at_once : Values
at_once name = switch false

started :
    run_start connect client poll_once at_once ("dc1" ∷ []) dc1
    ≡ (ok tt, record dc1 { stopped = false })
unfolding run_start run_command complete validate run modify_stopped_state cassandra_datacenter
started = refl
