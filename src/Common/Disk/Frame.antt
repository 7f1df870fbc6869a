-- ===== src/Common/Disk/Frame.antt =====
-- Actions that change no file outside a set of paths, whether they succeed or fail.
use Prim.Native.String.{String}
use mathlib.Core.Path.{◌≡◌, refl, ◌∙◌}
use mathlib.Core.Bool.{Bool, true, false}
use native.Mathlib.Omega.{arith}
use text.Mathlib.Text.{◌==◌}
use text.Mathlib.TextEquality.{eq_iff}
use k8ssandra_client.Common.Maps.{lookup, lookup-insert}
use k8ssandra_client.Common.Results.{Result, ok, err, panic}
use k8ssandra_client.Common.Exec.{Exec, pure, lift, continue, ◌>>=◌}
use k8ssandra_client.Common.Disk.{Disk, file, put, open_append, append, create, write_file}

-- Every path that `written` does not name holds after `m` what it held before.
pub record Leaves {A : Type 0} (written : String → Bool) (m : Exec Disk A) : Type 0 where
  pub at :
      (d : Disk) (p : String) → written p ≡ false → lookup p (m d).1.entries ≡ lookup p d.entries

module _ {A : Type 0} {written : String → Bool} where
  pub Leaves-pure : (a : A) → Leaves written (pure a)
  Leaves-pure a = record { at = λ d p h. refl }

  pub Leaves-lift : (r : Result A) → Leaves written (lift r)
  Leaves-lift r = record { at = λ d p h. refl }

  pub Leaves-reads : (f : Disk → Result A) → Leaves written (λ d. (f d, d))
  Leaves-reads f = record { at = λ d p h. refl }

module _ {A B : Type 0} {written : String → Bool} where
  Leaves-continue :
      (r : Result A) (f : A → Exec Disk B)
      → ((a : A) → Leaves written (f a))
      → Leaves written (continue r f)
  Leaves-continue (ok a) f k = record { at = (k a).at }
  Leaves-continue (err e) f k = record { at = λ d p h. refl }
  Leaves-continue panic f k = record { at = λ d p h. refl }

  pub Leaves-bind :
      (m : Exec Disk A) (f : A → Exec Disk B)
      → Leaves written m
      → ((a : A) → Leaves written (f a))
      → Leaves written (m >>= f)
  Leaves-bind m f h k = record {
    at = λ d p w. (Leaves-continue (m d).0 f k).at (m d).1 p w ∙ h.at d p w;
  }

apart :
    (written : String → Bool) (path p : String)
    → written path ≡ true
    → written p ≡ false
    → (path == p) ≡ false
apart written path p here w = ground (arith, eq_iff path p)

module _ {written : String → Bool} (path : String) (here : written path ≡ true) where
  Leaves-put : (r : Result String) → Leaves written (put path r)
  Leaves-put (ok text) = record {
    at = λ d p w.
        ground (arith, lookup-insert path p (file text) d.entries, apart written path p here w);
  }
  Leaves-put (err e) = record { at = λ d p w. refl }
  Leaves-put panic = record { at = λ d p w. refl }

  pub Leaves-open_append : Leaves written (open_append path)
  unfolding open_append
  Leaves-open_append = record { at = λ d p w. (Leaves-put _).at d p w }

  pub Leaves-append : (text : String) → Leaves written (append path text)
  unfolding append
  Leaves-append text = record { at = λ d p w. (Leaves-put _).at d p w }

  pub Leaves-create : Leaves written (create path)
  unfolding create
  Leaves-create = record { at = λ d p w. (Leaves-put _).at d p w }

  pub Leaves-write_file : (text : String) → Leaves written (write_file path text)
  unfolding write_file
  Leaves-write_file text =
      Leaves-bind (create path) (λ _. append path text) Leaves-create (λ _. Leaves-append text)
