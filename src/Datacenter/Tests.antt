-- ===== src/Datacenter/Tests.antt =====
-- The theorems on a datacenter over an API server with one datacenter, whose resource version grows
-- with each write.
mod Commands
mod Nodetool
mod Waits
use Prim.Native.String
use k8ssandra_client.Common.{
  ℕ, suc, String, Bool, true, false, Option, none, some, List, [], ◌∷◌, Dict, ok, err, Error,
  not_found, message, Result, ◌≡◌, ◌≢◌, ◌⊎◌, ◌↔◌, inl, inr, refl, sym, ap, subst, ◌∙◌, arith,
  decimal, ◌==◌, ◌&&◌, if◌then◌else◌, Bool-cases, eq_iff, eq_refl,
}
use k8ssandra_client.Common.Exec.{Exec, err_not_ok, panic_not_ok}
use k8ssandra_client.Common.Poll.{Poll, IsPoll}
use k8ssandra_client.Datacenter.Fetch.{
  ConditionType, ConditionStatus, condition_true, condition_false, datacenter_stopped,
  datacenter_ready, CassandraDatacenter, Client, cassandra_datacenter,
}
use k8ssandra_client.Datacenter.Manage.{
  modify_stopped_state, wait_until, wait_for_status, refresh_status,
}
use k8ssandra_client.Datacenter.Laws.{Store, IsApi, IsModified, modify_stopped_state-IsModified}

-- The server holds one datacenter.
abbrev is_key : String → String → CassandraDatacenter → Bool
is_key namespace name dc = dc.namespace == namespace && dc.name == name

abbrev stored : Store CassandraDatacenter
stored held namespace name = if is_key namespace name held then some held else none

abbrev renewed : CassandraDatacenter → CassandraDatacenter → CassandraDatacenter
renewed dc held = record dc {
  resource_version = String.◌++◌ held.resource_version "+";
  condition = held.condition;
}

abbrev server : Client CassandraDatacenter
server = record {
  get_datacenter = λ namespace name held.
      if is_key namespace name held then (ok held, held) else (err (not_found "datacenter"), held);
  update_datacenter = λ dc held.
      if is_key dc.namespace dc.name held && held.resource_version == dc.resource_version
      then (ok (renewed dc held), renewed dc held)
      else (err (message "conflict"), held);
  get_pod = λ namespace name held. (err (not_found "pod"), held);
  get_owners = λ namespace name held. (err (not_found "statefulset"), held);
  list_pods = λ namespace label value held. (ok [], held);
  get_secret = λ namespace name held. (err (not_found "secret"), held);
}

abbrev Answer : Type 0
Answer = Result CassandraDatacenter × CassandraDatacenter

abbrev answer : Bool → CassandraDatacenter → CassandraDatacenter → Error → Answer
answer b dc held e = if b then (ok dc, dc) else (err e, held)

answer-ok :
    (b : Bool) (dc held got last : CassandraDatacenter) (e : Error)
    → ◌≡◌ {A = Answer} (answer b dc held e) (ok got, last)
    → (b ≡ true) × (dc ≡ got) × (dc ≡ last)
answer-ok true dc held got last e h = (refl, ok_inj (ap (λ r. r.0) h), ap (λ r. r.1) h)
  where
    ok_inj : {c d : CassandraDatacenter} → ok c ≡ ok d → c ≡ d
    ok_inj p = cc
answer-ok false dc held got last e h = absurd (err_not_ok (ap (λ r. r.0) h))

both : (a b : Bool) → (a && b) ≡ true → (a ≡ true) × (b ≡ true)
both a b h = ground (arith, h)

is_key-stored :
    (namespace name : String) (dc : CassandraDatacenter)
    → is_key namespace name dc ≡ true
    → (stored dc namespace name ≡ some dc) × (dc.namespace ≡ namespace) × (dc.name ≡ name)
is_key-stored namespace name dc h =
    let (in_space, named) = both (dc.namespace == namespace) (dc.name == name) h in
    (
      ap (λ b. if b then some dc else none) h,
      ground (arith, eq_iff dc.namespace namespace, in_space),
      ground (arith, eq_iff dc.name name, named),
    )

server-got :
    (namespace name : String) (w last dc : CassandraDatacenter)
    → server.get_datacenter namespace name w ≡ (ok dc, last)
    → (stored last namespace name ≡ some dc) × (dc.namespace ≡ namespace) × (dc.name ≡ name)
server-got namespace name w last dc h =
    let (key, is, stays) =
      answer-ok (is_key namespace name w) w w dc last (not_found "datacenter") h in
    let (there, in_space, named) = is_key-stored namespace name w key in
    (
      subst (λ d. stored d namespace name ≡ some w) stays there ∙ ap some is,
      ap (λ (d : CassandraDatacenter). d.namespace) (sym is) ∙ in_space,
      ap (λ (d : CassandraDatacenter). d.name) (sym is) ∙ named,
    )

other_key :
    (namespace name : String) (dc : CassandraDatacenter)
    → (namespace ≢ dc.namespace) ⊎ (name ≢ dc.name)
    → is_key namespace name dc ≡ false
other_key namespace name dc (inl d) = ground (arith, eq_iff dc.namespace namespace, d)
other_key namespace name dc (inr d) = ground (arith, eq_iff dc.name name, d)

server-updated :
    (dc new w last : CassandraDatacenter)
    → server.update_datacenter dc w ≡ (ok new, last)
    → (is_key dc.namespace dc.name w ≡ true)
      × (w.resource_version ≡ dc.resource_version)
      × (renewed dc w ≡ new)
      × (renewed dc w ≡ last)
server-updated dc new w last h =
    let (guards, is, now) =
      answer-ok (is_key dc.namespace dc.name w && w.resource_version == dc.resource_version)
        (renewed dc w) w new last (message "conflict") h in
    let (key, version) =
      both (is_key dc.namespace dc.name w) (w.resource_version == dc.resource_version) guards in
    (key, ground (arith, eq_iff w.resource_version dc.resource_version, version), is, now)

server-written :
    (dc new w last : CassandraDatacenter)
    → renewed dc w ≡ new
    → renewed dc w ≡ last
    → (new ≡ record dc { resource_version = new.resource_version; condition = w.condition })
      × (stored last dc.namespace dc.name ≡ some new)
server-written dc new w last is now = (
  sym is
      ∙ ap
          (λ (n : CassandraDatacenter). record dc {
            resource_version = n.resource_version;
            condition = w.condition;
          })
          is,
  ap (λ d. stored d dc.namespace dc.name) (sym now)
      ∙ (is_key-stored dc.namespace dc.name (renewed dc w)
          (ground (arith, eq_refl dc.namespace, eq_refl dc.name))).0
      ∙ ap some is,
)

server-IsApi : IsApi server stored
server-IsApi = record {
  got = server-got;
  updated = λ dc new w last h.
      let (key, version, is, now) = server-updated dc new w last h in
      let (there, in_space, named) = is_key-stored dc.namespace dc.name w key in
      let (same, written) = server-written dc new w last is now in
      (w, there, version, same, written);
  others_kept = λ dc new w last namespace name h apart.
      let (key, version, is, now) = server-updated dc new w last h in
      let (there, in_space, named) = is_key-stored dc.namespace dc.name w key in
      ap (λ d. stored d namespace name) (sym now)
      ∙ ap (λ b. if b then some (renewed dc w) else none)
          (other_key namespace name (renewed dc w) apart)
      ∙ sym (
          ap (λ b. if b then some w else none)
            (other_key namespace name w (elim apart [
              | inl d ↦ inl (λ p. d (p ∙ in_space))
              | inr d ↦ inr (λ p. d (p ∙ named))
            ])));
}

-- One question, and no more.
abbrev ask : {W : Type 0} → Result Bool × W → Result (Unit {0}) × W
ask (ok true, w) = (ok tt, w)
ask (ok false, w) = (err (message "timed out"), w)
ask (err e, w) = (err e, w)
ask (Result.panic, w) = (Result.panic, w)

abbrev poll_once : Poll CassandraDatacenter
poll_once interval timeout condition w = ask (condition w)

asked :
    (r : Result Bool × CassandraDatacenter) (last : CassandraDatacenter)
    → ask r ≡ (ok tt, last)
    → r ≡ (ok true, last)
asked (ok true, w) last h = ap (λ u. (ok true, u)) (ap (λ r. r.1) h)
asked (ok false, w) last h = absurd (err_not_ok (ap (λ r. r.0) h))
asked (err e, w) last h = absurd (err_not_ok (ap (λ r. r.0) h))
asked (Result.panic, w) last h = absurd (panic_not_ok (ap (λ r. r.0) h))

poll_once-IsPoll : IsPoll poll_once
poll_once-IsPoll interval timeout condition w last h = (w, asked (condition w) last h)

-- The datacenter has no pods, and the operator has seen it.
abbrev dc1 : CassandraDatacenter
dc1 = record {
  name = "dc1";
  namespace = "ns";
  resource_version = "7";
  stopped = false;
  config = "";
  other_spec = "";
  condition =
      λ c. elim c [ datacenter_stopped ↦ condition_true | datacenter_ready ↦ condition_false ];
}

abbrev dc1_stopped : CassandraDatacenter
dc1_stopped = record dc1 { stopped = true; resource_version = "7+" }

modify_stopped_state-IsModified_example : IsModified server stored "dc1" "ns" true dc1 dc1_stopped
unfolding modify_stopped_state cassandra_datacenter
modify_stopped_state-IsModified_example =
    modify_stopped_state-IsModified server stored server-IsApi poll_once "dc1" "ns" true dc1
      dc1_stopped refl
