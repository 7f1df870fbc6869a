-- ===== src/Datacenter/Laws.antt =====
-- What stopping and starting a datacenter leaves in the API server.
use k8ssandra_client.Common.{
  String, Bool, false, Option, some, ok, ◌≡◌, ◌≢◌, ◌⊎◌, inl, inr, refl, sym, ap, ◌∙◌,
}
use k8ssandra_client.Common.Exec.{◌>>=◌, pure, then-eq-ok}
use k8ssandra_client.Common.Poll.{Poll}
use k8ssandra_client.Datacenter.Fetch.{CassandraDatacenter, Client, cassandra_datacenter}
use k8ssandra_client.Datacenter.Manage.{modify_stopped_state}

abbrev pub Store : Type 0 → Type 0
Store W = W → String → String → Option CassandraDatacenter

some_inj : {a b : CassandraDatacenter} → some a ≡ some b → a ≡ b
some_inj h = cc

stored_at :
    {W : Type 0} (stored : Store W) (w : W) (dc : CassandraDatacenter) (namespace name : String)
    → dc.namespace ≡ namespace
    → dc.name ≡ name
    → stored w dc.namespace dc.name ≡ stored w namespace name
stored_at stored w dc namespace name p q = rw p rw q refl

module _ {W : Type 0} (client : Client W) (stored : Store W) where
  -- Documented behaviour of the API server: a Get gives what is stored under the key; an Update is
  -- refused unless it carries the resource version that is stored, it leaves the status alone, which
  -- has an update of its own, and it touches no other object.
  pub record IsApi : Type 0 where
    pub got :
        (namespace name : String) (w last : W) (dc : CassandraDatacenter)
        → client.get_datacenter namespace name w ≡ (ok dc, last)
        → (stored last namespace name ≡ some dc) × (dc.namespace ≡ namespace) × (dc.name ≡ name)
    pub updated :
        (dc new : CassandraDatacenter) (w last : W)
        → client.update_datacenter dc w ≡ (ok new, last)
        → (old : CassandraDatacenter) × (stored w dc.namespace dc.name ≡ some old)
          × (old.resource_version ≡ dc.resource_version)
          × (new ≡ record dc { resource_version = new.resource_version; condition = old.condition })
          × (stored last dc.namespace dc.name ≡ some new)
    pub others_kept :
        (dc new : CassandraDatacenter) (w last : W) (namespace name : String)
        → client.update_datacenter dc w ≡ (ok new, last)
        → (namespace ≢ dc.namespace) ⊎ (name ≢ dc.name)
        → stored last namespace name ≡ stored w namespace name

  -- A datacenter that was read got a new flag, and everything else is as it was when it was read.
  pub record IsModified (name namespace : String) (stop : Bool) (w last : W) : Type 0 where
    pub old : CassandraDatacenter
    pub new : CassandraDatacenter
    pub before : W
    pub read : cassandra_datacenter client name namespace w ≡ (ok old, before)
    pub written : stored last namespace name ≡ some new
    pub only_flag : new ≡ record old { stopped = stop; resource_version = new.resource_version }
    pub others :
        (space other : String)
        → (space ≢ namespace) ⊎ (other ≢ name)
        → stored last space other ≡ stored before space other

  module _ (laws : IsApi) where
    pub update-IsModified :
        (name namespace : String) (stop : Bool) (w before last : W) (old new : CassandraDatacenter)
        → cassandra_datacenter client name namespace w ≡ (ok old, before)
        → client.update_datacenter (record old { stopped = stop }) before ≡ (ok new, last)
        → IsModified name namespace stop w last
    unfolding cassandra_datacenter
    update-IsModified name namespace stop w before last old new read e =
        let (is, in_space, named) = laws.got namespace name w before old read in
        let (stale, was, version, now, there) =
          laws.updated (record old { stopped = stop }) new before last e in
        record {
          old = old;
          new = new;
          before = before;
          read = read;
          written = sym (stored_at stored last old namespace name in_space named) ∙ there;
          only_flag =
              now
              ∙ ap
                  (λ (o : CassandraDatacenter). record old {
                    stopped = stop;
                    resource_version = new.resource_version;
                    condition = o.condition;
                  })
                  (some_inj
                    (sym was ∙ stored_at stored before old namespace name in_space named ∙ is));
          others = λ space other apart.
              laws.others_kept (record old { stopped = stop }) new before last space other e
                (elim apart [
                  | inl d ↦ inl (λ p. d (p ∙ in_space))
                  | inr d ↦ inr (λ p. d (p ∙ named))
                ]);
        }

    -- The object that an update gives back has the key that was asked for.
    pub updated_key :
        (name namespace : String) (stop : Bool) (w before last : W) (old new : CassandraDatacenter)
        → cassandra_datacenter client name namespace w ≡ (ok old, before)
        → client.update_datacenter (record old { stopped = stop }) before ≡ (ok new, last)
        → (new.name ≡ name) × (new.namespace ≡ namespace)
    unfolding cassandra_datacenter
    updated_key name namespace stop w before last old new read e =
        let (is, in_space, named) = laws.got namespace name w before old read in
        let (stale, was, version, now, there) =
          laws.updated (record old { stopped = stop }) new before last e in
        (
          ap (λ (o : CassandraDatacenter). o.name) now ∙ named,
          ap (λ (o : CassandraDatacenter). o.namespace) now ∙ in_space,
        )

    -- Over an API server that works as documented, where ModifyStoppedState without a wait ends
    -- without an error, the server holds the datacenter as it was read with the new flag and a
    -- resource version, and every other datacenter as it was when this one was read.
    pub modify_stopped_state-IsModified :
        (poll : Poll W) (name namespace : String) (stop : Bool) (w last : W)
        → modify_stopped_state client poll name namespace stop false w ≡ (ok tt, last)
        → IsModified name namespace stop w last
    unfolding modify_stopped_state
    modify_stopped_state-IsModified poll name namespace stop w last h =
        let (old, before, read, more) =
          then-eq-ok (cassandra_datacenter client name namespace)
            (λ old. client.update_datacenter (record old { stopped = stop }) >>= λ new. pure tt) w
            last h in
        let (new, after, update, done) =
          then-eq-ok (client.update_datacenter (record old { stopped = stop })) (λ new. pure tt)
            before last more in
        update-IsModified name namespace stop w before last old new read
          (update ∙ ap (λ u. (ok new, u)) (ap (λ r. r.1) done))
