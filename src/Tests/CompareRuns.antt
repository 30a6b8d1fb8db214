-- ===== src/Tests/CompareRuns.antt =====
-- Comparisons of files on a small file system whose open files are numbered from 0 on.
use ocsync.Base.{
  ℕ, zero, suc, arith, ◌==◌, ==_iff, ◌≡◌, refl, sym, ap, ◌∙◌, true, false, Option, none, some, [],
  ◌∷◌, ◌++◌, pos, if◌then◌else◌, ltb, length, inl, inr, Bool-cases,
}
use ocsync.Exclude.{bytes}
use ocsync.FileCopy.{c_streq}
use ocsync.FileCompare.{Reader, answer, overread, c_compare_file}
use ocsync.FileCompare.Laws.{chunk_size, IsReader, Succeeds}
use ocsync.FileCompare.Same.{c_compare_file-decides}
use ocsync.Types.{Str}

record Desk : Type 0 where
  files : Str → Option Str
  unread : ℕ → Str
  next : ℕ

abbrev front : ℕ → Str → Str
front zero s = []
front (suc n) [] = []
front (suc n) (a ∷ s) = a ∷ front n s

abbrev back : ℕ → Str → Str
back zero s = s
back (suc n) [] = []
back (suc n) (a ∷ s) = back n s

abbrev set : ℕ → Str → (ℕ → Str) → ℕ → Str
set h s unread g = if g == h then s else unread g

abbrev size_of : Option Str → Option ℕ
size_of none = none
size_of (some s) = some (length s)

abbrev opening : Option Str → Desk → Option ℕ × Desk
opening none v = (none, v)
opening (some s) v = (some v.next, record v { unread = set v.next s v.unread; next = suc v.next })

abbrev desk : Reader Desk
desk = record {
  stat_size = λ p v. (size_of (v.files p), v);
  open_read = λ p v. opening (v.files p) v;
  read = λ h size v. (
    some (front size (v.unread h)),
    record v { unread = set h (back size (v.unread h)) v.unread },
  );
  close = λ h v. v;
}

set_self : (h : ℕ) (s : Str) (unread : ℕ → Str) → set h s unread h ≡ s
set_self h s unread = rw ((==_iff h h).1 refl) refl

front-back : (n : ℕ) (s : Str) → s ≡ front n s ++ back n s
front-back zero s = refl
front-back (suc n) [] = refl
front-back (suc n) (a ∷ s) = ap (λ t. a ∷ t) (front-back n s)

length-front : (n : ℕ) (s : Str) → length (front n s) ≡ chunk_size n (length s)
length-front zero s = ground arith
length-front (suc n) [] = ground arith
length-front (suc n) (a ∷ s) = ground (arith, length-front n s)

opening_files : (p : Str) (o : Option Str) (v : Desk) → (opening o v).1.files p ≡ v.files p
opening_files p none v = refl
opening_files p (some s) v = refl

opening_held :
    (o : Option Str) (v : Desk) (h : ℕ) (s : Str)
    → (opening o v).0 ≡ some h
    → o ≡ some s
    → ((opening o v).1.unread h ≡ s) × (ltb h (opening o v).1.next ≡ true) × (ltb h v.next ≡ false)
opening_held none v h s e f = absurd cc
opening_held (some t) v h s e f =
    let number : v.next ≡ h = cc in
    (
      ap (set v.next t v.unread) (sym number) ∙ set_self v.next t v.unread ∙ cc,
      ground arith,
      ground arith,
    )

opening_unread :
    (g : ℕ) (o : Option Str) (v : Desk)
    → ltb g v.next ≡ true
    → (opening o v).1.unread g ≡ v.unread g
opening_unread g none v e = refl
opening_unread g (some s) v e = elim (Bool-cases (g == v.next)) [
  | inr other ↦ rw (other) refl
  | inl same ↦ let number = (==_iff g v.next).0 same in absurd (ground arith)
]

opening_open :
    (g : ℕ) (o : Option Str) (v : Desk) → ltb g v.next ≡ true → ltb g (opening o v).1.next ≡ true
opening_open g none v e = e
opening_open g (some s) v e = ground arith

some-length : (o : Option Str) (n : ℕ) (s : Str) → size_of o ≡ some n → o ≡ some s → n ≡ length s
some-length none n s e f = absurd cc
some-length (some t) n s e f = cc

read_parts :
    (h size : ℕ) (v : Desk) (buf : Str)
    → (desk.read h size v).0 ≡ some buf
    → v.unread h ≡ buf ++ (desk.read h size v).1.unread h
read_parts h size v buf e =
    let read : front size (v.unread h) ≡ buf = cc in
    front-back size (v.unread h)
    ∙ ap (λ s. s ++ back size (v.unread h)) read
    ∙ ap (λ s. buf ++ s) (sym (set_self h (back size (v.unread h)) v.unread))

desk-IsReader : IsReader desk
desk-IsReader = record {
  content = λ p v. v.files p;
  is_open = λ h v. ltb h v.next;
  unread = λ h v. v.unread h;
  stat_some = λ p v n s e f. some-length (v.files p) n s e f;
  stat_content = λ p q v. refl;
  open_some = λ p v h s e f. opening_held (v.files p) v h s e f;
  open_content = λ p q v. opening_files p (v.files q) v;
  open_unread = λ g p v e. opening_unread g (v.files p) v e;
  open_is_open = λ g p v e. opening_open g (v.files p) v e;
  read_is_open = λ g h size v. refl;
  read_some = λ h size v buf e. read_parts h size v buf e;
  read_length = λ h size v buf e. cc (length-front size (v.unread h));
  read_unread = λ g h size v e. rw (e) refl;
}

stat_exists : (o : Option Str) (s : Str) → o ≡ some s → (n : ℕ) × (size_of o ≡ some n)
stat_exists none s e = absurd cc
stat_exists (some t) s e = (length t, refl)

opening_exists :
    (o : Option Str) (v : Desk) (s : Str) → o ≡ some s → (h : ℕ) × ((opening o v).0 ≡ some h)
opening_exists none v s e = absurd cc
opening_exists (some t) v s e = (v.next, refl)

desk-Succeeds : Succeeds desk desk-IsReader
unfolding desk-IsReader
desk-Succeeds = record {
  stat_ok = λ p v s e. stat_exists (v.files p) s e;
  open_ok = λ p v s e. opening_exists (v.files p) v s e;
  read_ok = λ h size v e. (front size (v.unread h), refl);
}

-- the file "a", and for every other path a file that ends otherwise
abbrev two_files : Str → Option Str
two_files p = some (if c_streq p (bytes "a") then bytes "same" else bytes "sane")

abbrev fresh_desk : Desk
fresh_desk = record { files = two_files; unread = λ h. []; next = 0 }

c_compare_file-decides_example :
    (v : Desk) × (c_compare_file desk 5 (bytes "a") (bytes "b") fresh_desk ≡ answer (pos 0) v)
unfolding desk-IsReader
c_compare_file-decides_example =
    c_compare_file-decides desk desk-IsReader desk-Succeeds 5 (bytes "a") (bytes "b") fresh_desk
      (bytes "same") (bytes "sane") refl refl (omega arith)

-- two files with the same bytes
same_bytes :
    (v : Desk) × (c_compare_file desk 5 (bytes "b") (bytes "c") fresh_desk ≡ answer (pos 1) v)
unfolding c_compare_file
same_bytes = (_, refl)

-- both reads fail: SIZE_MAX bytes are compared
both_fail :
    c_compare_file
      (record desk { read = λ h size v. (none, v) })
      5
      (bytes "b")
      (bytes "c")
      fresh_desk
    ≡ overread
unfolding c_compare_file
both_fail = refl
