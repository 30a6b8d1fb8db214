-- ===== src/StrList.antt =====
-- src/std/c_string.c, the part on string lists: an array of strings with a count and a capacity.
-- `c_malloc` and `c_realloc` are taken to return memory.
use ocsync.Base.{
  ℕ, ◌+◌, [], ◌∷◌, ◌++◌, Option, none, some, ltb, leb, ◌==◌, ℤ, pos, minus_one, if◌then◌else◌,
}
use ocsync.Types.{Str, StrList}

unfoldable pub c_strlist_new : ℕ → Option StrList
c_strlist_new size =
    if size == 0 then none else some (record { vector = []; count = 0; size = size })

unfoldable pub c_strlist_expand : StrList → ℕ → Option StrList
c_strlist_expand l size =
    if size == 0
    then none
    else (if leb size l.size then some l else some (record l { size = size }))

unfoldable pub c_strlist_add : StrList → Str → ℤ × StrList
c_strlist_add l s =
    if ltb l.count l.size
    then (pos 0, record l { vector = l.vector ++ s ∷ []; count = l.count + 1 })
    else (minus_one, l)
