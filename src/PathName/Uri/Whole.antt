-- ===== src/PathName/Uri/Whole.antt =====
-- src/std/c_path.c, `c_parse_uri`: a URI of all its parts.
use ocsync.Base.{
  ℕ, ◌≡◌, refl, ap, ◌∙◌, ◌%◌, ◌^◌, Bool, true, false, Option, none, some, [], ◌∷◌, ◌++◌, pos, All,
  All-append,
}
use ocsync.PathName.{slash}
use ocsync.PathName.Split.{split_last}
use ocsync.PathName.Uri.{
  is_digit, is_colon, in_scheme, in_credentials, in_host, split_while, after_byte, Uri, scheme_part,
  divided, credentials_part, parse_scheme, user_and_passwd, parse_credentials, parse_host,
  parse_port, parse_authority, finish_uri, c_parse_uri,
}
use ocsync.Types.{Str}

-- every byte passes the test
abbrev pub Passes : (ℕ → Bool) → Str → Type 0
Passes test s = All (λ c. test c ≡ true) s

split_while-append :
    (test : ℕ → Bool) (s : Str) (c : ℕ) (t : Str)
    → Passes test s
    → test c ≡ false
    → split_while test (s ++ c ∷ t) ≡ (s, c ∷ t)
unfolding split_while
split_while-append test [] c t h e = rw (e) refl
split_while-append test (a ∷ s) c t h e = rw (split_while-append test s c t h.1 e, h.0) refl

split_last-none :
    (test : ℕ → Bool) (s : Str) → All (λ c. test c ≡ false) s → split_last test s ≡ none
unfolding split_last
split_last-none test [] h = refl
split_last-none test (a ∷ s) h = rw (split_last-none test s h.1, h.0) refl

split_last-append :
    (test : ℕ → Bool) (s : Str) (c : ℕ) (t : Str)
    → All (λ c. test c ≡ false) t
    → test c ≡ true
    → split_last test (s ++ c ∷ t) ≡ some (s, c, t)
unfolding split_last
split_last-append test [] c t h e = rw (split_last-none test t h, e) refl
split_last-append test (a ∷ s) c t h e = rw (split_last-append test s c t h e) refl

parse_scheme-append : (s t : Str) → Passes in_scheme s → parse_scheme (s ++ b':' ∷ t) ≡ (some s, t)
unfolding parse_scheme
parse_scheme-append s t h =
    ap (scheme_part (s ++ b':' ∷ t)) (split_while-append in_scheme s b':' t h refl)

All-other :
    (test : ℕ → Bool) (u : Str) (c : ℕ) (pw : Str)
    → Passes test u
    → test c ≡ true
    → Passes test pw
    → Passes test (u ++ c ∷ pw)
All-other test u c pw h e g = All-append (λ a. test a ≡ true) u (c ∷ pw) h (e, g)

parse_credentials-append :
    (u pw t : Str)
    → Passes in_credentials u
    → Passes in_credentials pw
    → All (λ c. is_colon c ≡ false) pw
    → parse_credentials ((u ++ b':' ∷ pw) ++ b'@' ∷ t) ≡ ((some u, some pw), t)
unfolding parse_credentials user_and_passwd
parse_credentials-append u pw t h g plain =
    ap (credentials_part ((u ++ b':' ∷ pw) ++ b'@' ∷ t)) (
      split_while-append in_credentials (u ++ b':' ∷ pw) b'@' t
        (All-other in_credentials u b':' pw h refl g) refl)
    ∙ ap (λ o. (divided (u ++ b':' ∷ pw) o, t)) (split_last-append is_colon u b':' pw plain refl)

parse_host-append :
    (h : Str) (c : ℕ) (t : Str)
    → Passes in_host h
    → after_byte b'[' (h ++ c ∷ t) ≡ none
    → in_host c ≡ false
    → parse_host (h ++ c ∷ t) ≡ (h, c ∷ t)
unfolding parse_host
parse_host-append h c t plain e stop =
    rw (parse_host, e) (split_while-append in_host h c t plain stop)

parse_port-append :
    (strtoul : Str → ℕ × Str) (d : ℕ) (ds t : Str) (n : ℕ)
    → Passes is_digit (d ∷ ds)
    → strtoul ((d ∷ ds) ++ slash ∷ t) ≡ (n, slash ∷ t)
    → parse_port strtoul true (b':' ∷ ((d ∷ ds) ++ slash ∷ t)) ≡ (some (n % 2 ^ 32), slash ∷ t)
unfolding parse_port
parse_port-append strtoul d ds t n digits reads =
    rw (parse_port, split_while-append is_digit (d ∷ ds) slash t digits refl)
      (ap (λ r. (some (r.0 % 2 ^ 32), r.1)) reads)

-- the parts of a URI that has them all, each in the bytes that it may have
pub record IsUri (scheme user passwd host digits : Str) : Type 0 where
  pub scheme_plain : Passes in_scheme scheme
  pub user_plain : Passes in_credentials user
  pub passwd_plain : Passes in_credentials passwd
  pub passwd_whole : All (λ c. is_colon c ≡ false) passwd
  pub host_plain : Passes in_host host
  pub digits_plain : Passes is_digit digits

abbrev pub authority : (user passwd host digits path : Str) → Str
authority user passwd host digits path =
    (user ++ b':' ∷ passwd) ++ (b'@' ∷ (host ++ (b':' ∷ (digits ++ slash ∷ path))))

-- A URI of a scheme that is not empty, a user, a password without a colon, a host that does not begin
-- with a bracket, a port in decimal digits and a path, each of bytes that do not end it, is taken
-- apart into these, the port in 32 bits, where `strtoul` reads the port's number up to the path.
pub c_parse_uri_whole :
    (strtoul : Str → ℕ × Str) (c : ℕ) (scheme user passwd host : Str) (d : ℕ) (digits path : Str)
    → (n : ℕ) → IsUri (c ∷ scheme) user passwd host (d ∷ digits)
    → after_byte b'[' (host ++ (b':' ∷ ((d ∷ digits) ++ slash ∷ path))) ≡ none
    → strtoul ((d ∷ digits) ++ slash ∷ path) ≡ (n, slash ∷ path)
    → c_parse_uri strtoul true
        ((c ∷ scheme) ++ (b':' ∷ slash ∷ slash ∷ authority user passwd host (d ∷ digits) path))
      ≡ (
        pos 0,
        record {
          scheme = some (c ∷ scheme);
          user = some user;
          passwd = some passwd;
          host = some host;
          port = some (n % 2 ^ 32);
          path = some (slash ∷ path);
        },
      )
unfolding c_parse_uri parse_authority
c_parse_uri_whole strtoul c scheme user passwd host d digits path n parts no_bracket reads =
    let after_host : Str = b':' ∷ ((d ∷ digits) ++ slash ∷ path) in
    let parsed : Option ℕ → Uri = λ port. record {
      scheme = some (c ∷ scheme);
      user = some user;
      passwd = some passwd;
      host = some host;
      port = port;
      path = none;
    } in
    rw
      (
        parse_scheme-append (c ∷ scheme)
            (slash ∷ slash ∷ authority user passwd host (d ∷ digits) path) parts.scheme_plain,
        parse_credentials-append user passwd (host ++ after_host) parts.user_plain
            parts.passwd_plain parts.passwd_whole,
        parse_host-append host b':' ((d ∷ digits) ++ slash ∷ path) parts.host_plain no_bracket refl,
      )
      (ap (λ r. finish_uri strtoul (parsed r.0) r.1)
        (parse_port-append strtoul d digits path n parts.digits_plain reads))
