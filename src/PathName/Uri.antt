-- ===== src/PathName/Uri.antt =====
-- src/std/c_path.c, `c_parse_uri`: the parts of a URI, a string of bytes other than 0.
--
-- The character classes are those of the C locale. `strtoul` with base 0 is a parameter: the number
-- at the start of a string and what follows it.
pub mod Whole
use ocsync.Base.{
  ℕ, ◌==◌, ◌%◌, ◌^◌, Bool, true, false, not, ◌&&◌, ◌||◌, ltb, Option, none, some, List, [], ◌∷◌, ℤ,
  pos, minus_one, if◌then◌else◌,
}
use ocsync.PathName.{is_slash, slash}
use ocsync.PathName.Split.{split_last}
use ocsync.Types.{Str}

abbrev pub between : (low high : ℕ) → ℕ → Bool
between low high c = not (ltb c low) && not (ltb high c)

abbrev pub is_digit : ℕ → Bool
is_digit = between b'0' b'9'

abbrev pub is_alpha : ℕ → Bool
is_alpha c = between b'a' b'z' c || between b'A' b'Z' c

abbrev pub is_xdigit : ℕ → Bool
is_xdigit c = is_digit c || (between b'a' b'f' c || between b'A' b'F' c)

abbrev pub is_colon : ℕ → Bool
is_colon c = c == b':'

abbrev pub in_scheme : ℕ → Bool
in_scheme c = is_alpha c || (is_digit c || (c == b'+' || c == b'-'))

abbrev pub in_credentials : ℕ → Bool
in_credentials c = not (c == b'@') && not (is_slash c)

abbrev pub in_address : ℕ → Bool
in_address c = is_xdigit c || (c == b'.' || is_colon c)

abbrev pub in_host : ℕ → Bool
in_host c = not (is_colon c) && not (is_slash c)

-- `while (*p && test(*p)) p++;`: what is passed, and what is left
unfoldable pub split_while : (ℕ → Bool) → Str → Str × Str
split_while test [] = ([], [])
split_while test (c ∷ s) =
    let (passed, left) = split_while test s in if test c then (c ∷ passed, left) else ([], c ∷ s)

-- what follows the byte, where the string starts with it
abbrev pub after_byte : ℕ → Str → Option Str
after_byte c [] = none
after_byte c (d ∷ s) = if d == c then some s else none

-- a part that is not found is not set
pub record Uri : Type 0 where
  pub scheme : Option Str
  pub user : Option Str
  pub passwd : Option Str
  pub host : Option Str
  pub port : Option ℕ
  pub path : Option Str

abbrev pub no_parts : Uri
no_parts = record {
  scheme = none;
  user = none;
  passwd = none;
  host = none;
  port = none;
  path = none;
}

abbrev pub scheme_part : (uri : Str) → Str × Str → Option Str × Str
scheme_part uri (passed, left) = elim (after_byte b':' left) [
  | none ↦ (none, uri)
  | some rest ↦ (some passed, rest)
]

unfoldable pub parse_scheme : Str → Option Str × Str
unfolding split_while
parse_scheme uri = scheme_part uri (split_while in_scheme uri)

-- the last colon divides the user from the password
abbrev pub divided : Str → Option (Str × ℕ × Str) → Option Str × Option Str
divided s none = (some s, none)
divided s (some (before, c, rest)) = (some before, some rest)

unfoldable pub user_and_passwd : Str → Option Str × Option Str
unfolding split_last
user_and_passwd s = divided s (split_last is_colon s)

abbrev pub credentials_part : Str → Str × Str → (Option Str × Option Str) × Str
credentials_part s (passed, left) = elim (after_byte b'@' left) [
  | none ↦ ((none, none), s)
  | some rest ↦ (user_and_passwd passed, rest)
]

unfoldable pub parse_credentials : Str → (Option Str × Option Str) × Str
unfolding split_while user_and_passwd
parse_credentials s = credentials_part s (split_while in_credentials s)

-- an address in brackets, where they are closed
abbrev pub parse_address : Str → (host : Str × Str) → Str × Str
unfolding split_while
parse_address s host = elim (after_byte b']' (split_while in_address s).1) [
  | none ↦ host
  | some left ↦ ((split_while in_address s).0, left)
]

unfoldable pub parse_host : Str → Str × Str
unfolding split_while
parse_host s = elim (after_byte b'[' s) [
  | none ↦ split_while in_host s
  | some inside ↦ parse_address inside (split_while in_host s)
]

module _ (strtoul : Str → ℕ × Str) where
  -- `strtoul` moves the end only where there was a digit
  abbrev pub end_of_port : (digits : Str) → Str → Str
  end_of_port [] s = s
  end_of_port (d ∷ ds) s = (strtoul s).1

  unfoldable pub parse_port : (wanted : Bool) → Str → Option ℕ × Str
  unfolding split_while
  parse_port wanted s = elim (after_byte b':' s) [
    | none ↦ (none, s)
    | some digits ↦
        if wanted
        then (
          some ((strtoul digits).0 % 2 ^ 32),
          end_of_port (split_while is_digit digits).0 digits,
        )
        else (none, (split_while is_digit digits).1)
  ]

  -- from the test for a path on
  abbrev pub finish_uri : Uri → Str → ℤ × Uri
  finish_uri u [] = (pos 0, u)
  finish_uri u (c ∷ s) =
      if is_slash c then (pos 0, record u { path = some (c ∷ s) }) else (minus_one, u)

  unfoldable pub parse_authority : (wanted : Bool) → Uri → Str → ℤ × Uri
  unfolding parse_credentials parse_host parse_port
  parse_authority wanted u s =
      let ((user, passwd), at_host) = parse_credentials s in
      let (host, at_port) = parse_host at_host in
      let (port, left) = parse_port wanted at_port in
      finish_uri (record u { user = user; passwd = passwd; host = some host; port = port }) left

  abbrev pub after_scheme : (wanted : Bool) → Uri → Str → ℤ × Uri
  after_scheme wanted u [] = finish_uri u []
  after_scheme wanted u (c ∷ s) = elim (after_byte slash s) [
    | none ↦ finish_uri u (c ∷ s)
    | some authority ↦
        if is_slash c then parse_authority wanted u authority else finish_uri u (c ∷ s)
  ]

  -- `wanted`: the caller asks for the port
  unfoldable pub c_parse_uri : (wanted : Bool) → Str → ℤ × Uri
  unfolding parse_scheme parse_authority
  c_parse_uri wanted [] = (minus_one, no_parts)
  c_parse_uri wanted (c ∷ s) =
      let (scheme, left) = parse_scheme (c ∷ s) in
      after_scheme wanted (record no_parts { scheme = scheme }) left
