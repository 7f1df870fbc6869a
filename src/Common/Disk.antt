-- ===== src/Common/Disk.antt =====
-- The files that the program reads and writes. An operation on a path can fail by a fault of that
-- path, which stands for permissions and devices; the directories that are written to are there.
pub mod Frame
pub mod Appends
use Prim.Native.String
use Prim.Native.String.{String}
use mathlib.Core.Option.{Option, none, some}
use mathlib.Core.List.{List}
use k8ssandra_client.Common.Maps.{Dict, lookup, insert}
use k8ssandra_client.Common.Results.{Result, ok, err, bind}
use k8ssandra_client.Common.Errors.{Error, message, not_exist}
use k8ssandra_client.Common.Exec.{Exec, ◌>>=◌, ◌>>◌}

pub data Entry : Type 0 where
  file : String → Entry
  dir : Entry

pub record Disk : Type 0 where
  pub entries : Dict Entry
  -- of os.Stat, of reading, of opening for writing, and of writing
  pub stat_fault : String → Option Error
  pub read_fault : String → Option Error
  pub open_fault : String → Option Error
  pub write_fault : String → Option Error

abbrev guarded {ℓ} : {A : Type ℓ} → Option Error → Result A → Result A
guarded none r = r
guarded (some e) r = err e

abbrev found : String → Option Entry → Result Entry
found path none = err (not_exist path)
found path (some e) = ok e

-- os.Stat
unfoldable pub stat : String → Disk → Result Entry
stat path d = guarded (d.stat_fault path) (found path (lookup path d.entries))

abbrev pub content : String → Entry → Result String
content path (file text) = ok text
content path dir = err (message "is a directory")

-- os.ReadFile; os.Open with a reader over the file
unfoldable pub read_file : String → Disk → Result String
read_file path d =
    guarded (d.read_fault path) (bind (found path (lookup path d.entries)) (content path))

abbrev pub text_before : Option Entry → Result String
text_before none = ok ""
text_before (some (file text)) = ok text
text_before (some dir) = err (message "is a directory")

abbrev put : String → Result String → Exec Disk (Unit {0})
put path (ok text) d = (ok tt, record d { entries = insert path (file text) d.entries })
put path (err e) d = (err e, d)
put path Result.panic d = (Result.panic, d)

-- os.OpenFile with O_WRONLY|O_CREATE|O_APPEND: the file is there afterwards, with what it held.
unfoldable pub open_append : String → Exec Disk (Unit {0})
open_append path d = put path (guarded (d.open_fault path) (text_before (lookup path d.entries))) d

-- A write to a file that is open for appending.
unfoldable pub append : String → String → Exec Disk (Unit {0})
append path text d =
    put path
      (guarded (d.write_fault path)
        (bind (text_before (lookup path d.entries)) λ before. ok (String.◌++◌ before text)))
      d

-- os.Open, of a file or of a directory.
unfoldable pub open_read : String → Disk → Result Entry
open_read path d = guarded (d.read_fault path) (found path (lookup path d.entries))

-- os.Create: the file is there afterwards, and empty.
unfoldable pub create : String → Exec Disk (Unit {0})
create path d =
    put path
      (guarded (d.open_fault path) (bind (text_before (lookup path d.entries)) λ before. ok "")) d

-- os.WriteFile
unfoldable pub write_file : String → String → Exec Disk (Unit {0})
unfolding create append
write_file path text = do create path; append path text
