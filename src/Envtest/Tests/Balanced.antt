-- ===== src/Envtest/Tests/Balanced.antt =====
-- Two environments whose tests panic, in a world that is the list of the servers that run.
use k8ssandra_client.Common.{
  ℕ, ◌+◌, ◌<◌, String, true, false, none, some, List, [], ◌∷◌, ok, panic, ◌==◌, eq_refl, eq_iff,
  if◌then◌else◌, ◌≡◌, refl, sym, ap, ◌∙◌, arith, Bool-cases, inl, inr, Option,
}
use k8ssandra_client.Common.Exec.{Exec}
use k8ssandra_client.Common.Paths.{join_path, clean}
use k8ssandra_client.Kube.{Library, get_client}
use k8ssandra_client.Envtest.Environment.{
  Environment, EnvLib, new_environment, crd_directory_of, start, start_all, checked, run_multi,
}
use k8ssandra_client.Envtest.Stopped.{IsCounted, run_multi-balanced}

abbrev Servers : Type 0
Servers = List String

abbrev without : String → Servers → Servers
without url [] = []
without url (s ∷ ss) = if s == url then ss else s ∷ without url ss

abbrev stop_at : Option String → Servers → Servers
stop_at none ss = ss
stop_at (some url) ss = without url ss

abbrev next_url : Servers → String
next_url [] = "https://1.2.3.4"
next_url (s ∷ ss) = "https://5.6.7.8"

abbrev env_lib : EnvLib Servers String String
env_lib = record {
  start = λ e ss. (ok (next_url ss), next_url ss ∷ ss);
  stop = λ e ss. (ok tt, stop_at e.config ss);
  cancel = λ ss. (ok tt, ss);
  add_cassdc = λ c ss. (ok tt, ss);
  add_global_cassdc = λ ss. (ok tt, ss);
  add_global_control = λ ss. (ok tt, ss);
  add_global_tasks = λ ss. (ok tt, ss);
  add_global_extensions = λ ss. (ok tt, ss);
}

abbrev kube : Library Servers String String
kube = record {
  new = λ rest ss. (ok rest, ss);
  add_to_scheme = λ c ss. (ok tt, ss);
  new_namespaced_client = λ c namespace. c;
}

abbrev is_of : String → String → ℕ
is_of c d = if c == d then 1 else 0

abbrev runs : Servers → String → ℕ
runs [] c = 0
runs (s ∷ ss) c = is_of c s + runs ss c

runs-without :
    (url : String) (ss : Servers)
    → 0 < runs ss url
    → (c : String) → is_of c url + runs (without url ss) c ≡ runs ss c
runs-without url [] h c = absurd (omega (arith, h))
runs-without url (s ∷ ss) h c = elim (Bool-cases (s == url)) [
  | inl e ↦ ground (arith, e, eq_iff s url)
  | inr e ↦
      let there : 0 < runs ss url = ground (arith, e, h, eq_iff s url, eq_iff url s) in
      rw e (omega (arith, runs-without url ss there c))
]

counted : IsCounted env_lib kube runs is_of
unfolding get_client
counted = record {
  one = λ c. ground (arith, eq_refl c);
  starts = λ e w w' cfg h c.
      let is : next_url w ≡ cfg = cc (ap (λ r. r.0) h) in
      ap (λ v. runs v c) (sym (ap (λ r. r.1) h)) ∙ ap (λ u. is_of c u + runs w c) is;
  clients = λ cfg w c. refl;
  schemes = λ u w c. refl;
  global_cassdc = λ w c. refl;
  global_control = λ w c. refl;
  global_tasks = λ w c. refl;
  global_extensions = λ w c. refl;
  stops = λ e w cfg is h.
      (refl, λ c. ap (λ o. is_of c cfg + runs (stop_at o w) c) is ∙ runs-without cfg w h c);
  cancels = λ w. (refl, λ c. refl);
}

abbrev up_at : String → Environment String String
up_at url = record {
  client = some url;
  config = some url;
  crd_directory = "/src/testfiles/crd";
  use_existing_cluster = false;
  error_if_crd_path_missing = true;
  kubeconfig = "";
  kind_cluster = none;
}

abbrev panics : Exec Servers ℕ
panics ss = (panic, ss)

abbrev idle : List (Environment String String) → Exec Servers (Unit {0})
idle es ss = (ok tt, ss)

run_multi-balanced_example :
    ((c : String) → runs (run_multi env_lib kube 2 "/src" idle panics []).1 c ≡ runs [] c)
    × ((run_multi env_lib kube 2 "/src" idle panics []).0 ≡ panic)
unfolding start_all start checked new_environment crd_directory_of join_path clean get_client
run_multi-balanced_example =
    run_multi-balanced env_lib kube runs is_of 2 "/src" idle panics
      (up_at "https://1.2.3.4" ∷ up_at "https://5.6.7.8" ∷ []) []
      ("https://5.6.7.8" ∷ "https://1.2.3.4" ∷ []) counted refl (λ w c. refl)
