-- ===== src/Common/Disk/Appends.antt =====
-- Actions that, on a disk without faults, append a text to one file and change nothing else.
use Prim.Native.String
use Prim.Native.String.{String}
use mathlib.Core.Path.{◌≡◌, sym, ◌∙◌, ap}
use mathlib.Core.Option.{none, some}
use text.Mathlib.TextLemmas.{append_assoc, append-nil}
use text.Mathlib.TextPositions.{eq_refl}
use k8ssandra_client.Common.Maps.{lookup, insert, lookup-insert, insert-insert, insert-lookup}
use k8ssandra_client.Common.Results.{ok}
use k8ssandra_client.Common.Exec.{Exec, pure, ◌>>◌}
use k8ssandra_client.Common.Disk.{Disk, file, text_before, open_append, append, read_file}

-- No operation on the disk fails by a fault of its path.
pub record IsHealthy (d : Disk) : Type 0 where
  pub stats : (p : String) → d.stat_fault p ≡ none
  pub reads : (p : String) → d.read_fault p ≡ none
  pub opens : (p : String) → d.open_fault p ≡ none
  pub writes : (p : String) → d.write_fault p ≡ none

-- The disk with a text in place of a file's content.
abbrev pub with_file : String → String → Disk → Disk
with_file path text d = record d { entries = insert path (file text) d.entries }

pub IsHealthy-with_file :
    (path text : String) (d : Disk) → IsHealthy d → IsHealthy (with_file path text d)
IsHealthy-with_file path text d h = record {
  stats = h.stats;
  reads = h.reads;
  opens = h.opens;
  writes = h.writes;
}

lookup-with_file :
    (path text : String) (d : Disk) → lookup path (with_file path text d).entries ≡ some (file text)
lookup-with_file path text d = lookup-insert path path (file text) d.entries ∙ rw (eq_refl path)

with_file-with_file :
    (path s t : String) (d : Disk) → with_file path t (with_file path s d) ≡ with_file path t d
with_file-with_file path s t d =
    λ i. record d { entries = insert-insert path (file t) (file s) d.entries i }

-- On a healthy disk where the file holds `before`, the action succeeds, leaves `before` and the
-- text in the file, and changes nothing else.
pub record Appends (path text : String) (m : Exec Disk (Unit {0})) : Type 0 where
  pub at :
      (d : Disk) (before : String)
      → IsHealthy d
      → lookup path d.entries ≡ some (file before)
      → m d ≡ (ok tt, with_file path (String.◌++◌ before text) d)

module _ (path : String) where
  -- Opening for appending keeps what the file held, and creates one that is empty.
  pub open_append_lem :
      (d : Disk) (before : String)
      → IsHealthy d
      → text_before (lookup path d.entries) ≡ ok before
      → open_append path d ≡ (ok tt, with_file path before d)
  unfolding open_append
  open_append_lem d before h b = rw (h.opens path, b)

  pub Appends-pure : Appends path "" (pure tt)
  Appends-pure = record {
    at = λ d before h b.
        ap (λ es. (ok tt, record d { entries = es }))
          (sym (insert-lookup path (file before) d.entries b))
        ∙ ap (λ x. (ok tt, with_file path x d)) (sym (append-nil before));
  }

  pub Appends-append : (text : String) → Appends path text (append path text)
  unfolding append
  Appends-append text = record { at = λ d before h b. rw (h.writes path, b) }

  pub Appends-seq :
      (s t : String) (m n : Exec Disk (Unit {0}))
      → Appends path s m
      → Appends path t n
      → Appends path (String.◌++◌ s t) (m >> n)
  Appends-seq s t m n hm hn = record {
    at = λ d before h b.
        let d' = with_file path (String.◌++◌ before s) d in
        rw (hm.at d before h b) (
          hn.at d' (String.◌++◌ before s) (IsHealthy-with_file path _ d h)
            (lookup-with_file path _ d)
          ∙ ap (λ e. (ok tt, e)) (with_file-with_file path _ _ d)
          ∙ ap (λ x. (ok tt, with_file path x d)) (append_assoc before s t));
  }

  -- An action after the file was opened.
  pub Appends-open :
      (text : String) (m : Exec Disk (Unit {0}))
      → Appends path text m
      → (d : Disk) (before : String) → IsHealthy d
      → text_before (lookup path d.entries) ≡ ok before
      → (open_append path >> m) d ≡ (ok tt, with_file path (String.◌++◌ before text) d)
  Appends-open text m hm d before h b = rw (open_append_lem d before h b) (
      hm.at (with_file path before d) before (IsHealthy-with_file path _ d h)
        (lookup-with_file path _ d)
      ∙ ap (λ e. (ok tt, e)) (with_file-with_file path _ _ d))

-- A file is read as it is.
pub read_file_lem :
    (path text : String) (d : Disk)
    → IsHealthy d
    → lookup path d.entries ≡ some (file text)
    → read_file path d ≡ ok text
unfolding read_file
read_file_lem path text d h e = rw (h.reads path, e)
