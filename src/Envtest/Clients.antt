-- ===== src/Envtest/Clients.antt =====
-- Which client a manager gives, and which nodes its cluster has.
use k8ssandra_client.Common.{
  ℕ, zero, suc, pos, String, none, some, List, [], ◌∷◌, ◌++◌, append-nil, append_assoc, ok, err,
  Error, ◌≡◌, refl, sym, ◌∙◌, arith, bind-eq-ok,
}
use k8ssandra_client.Envtest.Kind.{
  Role, control_plane, worker, KindConfig, append_workers, rounds, KindLib, KindManager,
  set_worker_nodes, get_client, make_client, after_new,
}

abbrev pub workers : ℕ → List Role
workers zero = []
workers (suc n) = worker ∷ workers n

pub append_workers-workers :
    (n : ℕ) (nodes : List Role) → append_workers n nodes ≡ nodes ++ workers n
unfolding append_workers
append_workers-workers zero nodes = sym (append-nil nodes)
append_workers-workers (suc n) nodes =
    append_workers-workers n (nodes ++ worker ∷ []) ∙ append_assoc nodes (worker ∷ []) (workers n)

module _ {W Other Rest C : Type 0} (lib : KindLib W Other Rest C) where
  -- Where the YAML library reads back what it wrote, the configuration that is made for a number of
  -- workers reads back as one control plane and then that many workers, with the rest of the default.
  pub set_worker_nodes-read :
      (n : ℕ) (written : String)
      → ((config : KindConfig Other) (text : String)
          → lib.marshal config ≡ ok text
          → lib.unmarshal text ≡ ok config)
      → set_worker_nodes lib (pos n) ≡ ok written
      → (config : KindConfig Other) × (default : KindConfig Other) × (lib.unmarshal written
          ≡ ok config)
        × (lib.unmarshal lib.kind_config ≡ ok default)
        × (config.nodes ≡ control_plane ∷ workers n)
        × (config.other ≡ default.other)
  unfolding set_worker_nodes rounds
  set_worker_nodes-read n written reads h =
      let (default, read, h') = bind-eq-ok (lib.unmarshal lib.kind_config) _ h in
      (
        record default { nodes = append_workers n (control_plane ∷ []) },
        default,
        reads _ written h',
        read,
        append_workers-workers n (control_plane ∷ []),
        refl,
      )

  -- Where a manager without a client can read its configuration and client.New fails, GetClient
  -- returns that error, and every later call a client that is nil, without an error.
  pub get_client-nil :
      (k : KindManager Rest C) (rest : Rest) (e : Error) (w w1 w2 later : W)
      → k.client ≡ none
      → lib.build_config_from_file k.kubeconfig_location w ≡ (ok rest, w1)
      → lib.new_client rest w1 ≡ (err e, w2)
      → (k' : KindManager Rest C) × (get_client lib k w ≡ (err e, k', w2))
        × (get_client lib k' later ≡ (ok none, k', later))
  unfolding get_client make_client after_new
  get_client-nil k rest e w w1 w2 later n read fails =
      (record k { client = some none }, ground (arith, n, read, fails), refl)
