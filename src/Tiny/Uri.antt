-- ===== src/Tiny/Uri.antt =====
-- What `parse_uri` makes of a URI.
use computer_science.Prelude.{
  ℕ, ◌+◌, ◌<◌, ◌≤◌, ◌≡◌, refl, true, false, [], ◌∷◌, ◌++◌, none, some, ◌==◌, arith, if◌then◌else◌,
  length, length-append, Bool-cases, inl, inr, sym, append-nil, lt→ltb,
}
use computer_science.Text.{Text, bytes, lacks, contains, split_at-append, split_at-none}
use computer_science.Tiny.{parse_uri, fit, ends_in_slash, cut_args, maxline}

pub fit-some : (t : Text) → length t < maxline → fit t ≡ some t
unfolding fit
fit-some t h = ground arith

pub fit-none : (t : Text) → maxline ≤ length t → fit t ≡ none
unfolding fit
fit-none t h = ground arith

ends_in_slash-append : (s : Text) (x : ℕ) → ends_in_slash (s ++ x ∷ []) ≡ some (x == b'/')
unfolding ends_in_slash
ends_in_slash-append [] x = refl
ends_in_slash-append (y ∷ []) x = refl
ends_in_slash-append (y ∷ z ∷ s) x = ends_in_slash-append (z ∷ s) x

-- A URI with `cgi-bin` anywhere in it and a `?` is cut at its first `?`, if both parts fit their
-- buffers: the program is the part in front, behind a `.`, and its arguments are the part behind.
pub parse_uri-dynamic :
    (path args : Text)
    → lacks b'?' path ≡ true
    → length path + 1 < maxline
    → length args < maxline
    → contains (bytes "cgi-bin") (path ++ b'?' ∷ args) ≡ true
    → parse_uri (path ++ b'?' ∷ args)
      ≡ some (record { is_static = false; filename = b'.' ∷ path; cgiargs = args })
unfolding parse_uri cut_args
parse_uri-dynamic path args h hp ha c = rw c (
    rw (split_at-append b'?' path args h)
      (rw (fit-some args ha, fit-some (b'.' ∷ path) (omega arith)) refl))

-- A URI with `cgi-bin` in it and no `?` that fits its buffer names the program behind a `.`, and
-- gives it no arguments.
pub parse_uri-no_args :
    (uri : Text)
    → lacks b'?' uri ≡ true
    → length uri + 1 < maxline
    → contains (bytes "cgi-bin") uri ≡ true
    → parse_uri uri ≡ some (record { is_static = false; filename = b'.' ∷ uri; cgiargs = [] })
unfolding parse_uri cut_args
parse_uri-no_args uri h hp c =
    rw c
      (rw (split_at-none b'?' uri h) (rw (lt→ltb (length (b'.' ∷ uri)) maxline (omega arith)) refl))

-- The name of the default page is added exactly to a URI that ends in a slash.
abbrev default_page : ℕ → Text
default_page x = if x == b'/' then bytes "home.html" else []

static_name :
    (t : Text) (x : ℕ) → (if x == b'/' then t ++ bytes "home.html" else t) ≡ t ++ default_page x
static_name t x = elim (Bool-cases (x == b'/')) [
  | inl slash ↦ rw slash refl
  | inr other ↦ rw other (sym (append-nil t))
]

-- A URI without `cgi-bin` that is not empty names the file behind a `.`, with the default page added
-- if it ends in a slash, if that name fits its buffer.
parse_uri-static :
    (s : Text) (x : ℕ)
    → contains (bytes "cgi-bin") (s ++ x ∷ []) ≡ false
    → length (s ++ x ∷ []) + 1 + length (default_page x) < maxline
    → parse_uri (s ++ x ∷ [])
      ≡ some (record {
        is_static = true;
        filename = b'.' ∷ ((s ++ x ∷ []) ++ default_page x);
        cgiargs = [];
      })
unfolding parse_uri
parse_uri-static s x c h =
    let uri = s ++ x ∷ [] in
    rw c (
      rw (fit-some (b'.' ∷ uri) (omega arith)) (
        rw (ends_in_slash-append s x) (
          rw (static_name (b'.' ∷ uri) x) (
            rw
              (fit-some (b'.' ∷ (uri ++ default_page x))
                (omega (arith, length-append uri (default_page x))))
              refl))))

-- A URI of 8182 to 8190 bytes without `cgi-bin` that ends in a slash is undefined behaviour: with the
-- default page the name does not fit its buffer.
parse_uri-overflow :
    (s : Text)
    → contains (bytes "cgi-bin") (s ++ b'/' ∷ []) ≡ false
    → 8182 ≤ length (s ++ b'/' ∷ [])
    → length (s ++ b'/' ∷ []) ≤ 8190
    → parse_uri (s ++ b'/' ∷ []) ≡ none
unfolding parse_uri
parse_uri-overflow s c lo hi =
    let uri = s ++ b'/' ∷ [] in
    rw c (
      rw (fit-some (b'.' ∷ uri) (omega arith)) (
        rw (ends_in_slash-append s b'/') (
          rw
            (fit-none ((b'.' ∷ uri) ++ bytes "home.html")
              (omega (arith, length-append (b'.' ∷ uri) (bytes "home.html"))))
            refl)))
