-- ===== src/Tests/ListRuns.antt =====
-- The linked list on small inputs.
use ocsync.Base.{Bool, ◌≡◌, refl, List, [], ◌∷◌}
use ocsync.CList.{c_list_sort}
use ocsync.CList.Sort.{Sorted, count, c_list_sort-Sorted}
use ocsync.Exclude.{bytes}
use ocsync.Propagate.{strcmp, cleanup_cmp}
use ocsync.Propagate.Cleanup.{cleanup_cmp-IsOrder}
use ocsync.Types.{Str, FileStat}
use ocsync.Tests.SessionRuns.{journal_entry}

abbrev named : Str → FileStat
named path = record journal_entry { path = path }

abbrev unsorted : List FileStat
unsorted = named (bytes "b") ∷ named (bytes "a/b") ∷ named (bytes "a") ∷ []

sort_run :
    c_list_sort cleanup_cmp unsorted
    ≡ named (bytes "a") ∷ named (bytes "a/b") ∷ named (bytes "b") ∷ []
unfolding c_list_sort strcmp
sort_run = refl

c_list_sort-Sorted_example :
    Sorted cleanup_cmp (c_list_sort cleanup_cmp unsorted)
    × ((p : FileStat → Bool) → count p (c_list_sort cleanup_cmp unsorted) ≡ count p unsorted)
c_list_sort-Sorted_example = c_list_sort-Sorted cleanup_cmp cleanup_cmp-IsOrder unsorted
