-- ===== src/Tests/PushRuns.antt =====
-- Pushes of a file of three bytes.
use ocsync.Base.{ℕ, ◌≡◌, ◌≢◌, refl, Option, none, some, List, [], ◌∷◌, ℤ, pos, arith}
use ocsync.Exclude.{bytes}
use ocsync.Types.{Str, local_replica, remote_replica, Instruction, new, updated, FileStat, Ctx}
use ocsync.PathName.{c_tmpname, fill_template}
use ocsync.PathName.Template.{c_tmpname_once}
use ocsync.FileSystem.{hang}
use ocsync.Transfer.{create_target, push_to_tmp_first, begin}
use ocsync.Push.{push_file}
use ocsync.Push.Frame.{Pushed, push_file-Pushed}
use ocsync.Push.Arrival.{Arrived, push_file-Arrived}
use ocsync.Push.Divergence.{create_target_endless}
use ocsync.Tests.Disk.{World, disk, disk_store, two_files, no_directory}
use ocsync.Tests.SessionRuns.{start, journal_entry}

-- the entry of a local file of three bytes that is to be pushed
abbrev new_file : FileStat
new_file = record journal_entry { instruction = new; size = 3; mode = 420 }

local_remote : local_replica ≢ remote_replica
local_remote e = cc

abbrev summary : Option (ℤ × Ctx × FileStat × World) → Option (ℤ × Instruction × Str)
summary none = none
summary (some (rc, ctx, st, w)) = some (rc, st.instruction, w.file remote_replica)

bytes_arrive :
    summary (push_file disk 13 start new_file two_files) ≡ some (pos 0, updated, 5 ∷ 6 ∷ 7 ∷ [])
unfolding push_file push_to_tmp_first
bytes_arrive = refl

push_file-Pushed_example : Pushed start new_file (push_file disk 13 start new_file two_files)
push_file-Pushed_example = push_file-Pushed disk 13 start new_file two_files

push_file-Arrived_example :
    Arrived disk disk_store start.local start.remote new_file two_files
      (push_file disk 13 start new_file two_files)
unfolding disk_store
push_file-Arrived_example =
    push_file-Arrived disk disk_store 13 start new_file two_files local_remote
      (λ uri w e. absurd cc) (omega arith) (omega arith)

create_target_endless_example :
    create_target no_directory 40 0 remote_replica (bytes "/r/d/f") (begin start new_file two_files)
    ≡ hang
create_target_endless_example =
    create_target_endless no_directory remote_replica (λ uri w. (refl, refl)) 40 0 (bytes "/r/d/f")
      (begin start new_file two_files)

abbrev six_rands : List ℕ
six_rands = 1 ∷ 2 ∷ 3 ∷ 4 ∷ 5 ∷ 6 ∷ []

filled :
    c_tmpname six_rands (bytes "/r/f.XXXXXX") ≡ some (fill_template six_rands (bytes "/r/f.XXXXXX"))
unfolding c_tmpname
filled = refl

c_tmpname_once_example : c_tmpname six_rands (fill_template six_rands (bytes "/r/f.XXXXXX")) ≡ none
c_tmpname_once_example =
    c_tmpname_once six_rands six_rands (bytes "/r/f.XXXXXX")
      (fill_template six_rands (bytes "/r/f.XXXXXX")) refl filled
