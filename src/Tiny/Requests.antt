-- ===== src/Tiny/Requests.antt =====
-- What a client can get out of `doit`.
use computer_science.Prelude.{
  ◌≡◌, refl, Bool, true, false, not, ◌||◌, List, [], ◌∷◌, ◌++◌, Option, none, some, arith, inl, inr,
  Option-cases, OnSome, OnSome-bind, ◌>>=◌, if◌then◌else◌,
}
use computer_science.Text.{Text, bytes, newline, same_text, lacks}
use computer_science.Tiny.{
  Parsed, Stat, Reply, Platform, closed, client_error, serve_static, serve_dynamic, parse_uri,
  get_filetype, read_requesthdrs, serve, respond, doit,
}

abbrev pub empty_line : Text
empty_line = 13 ∷ newline ∷ []

-- None of the lines ends the headers.
abbrev pub NoneEmpty : List Text → Type 0
NoneEmpty [] = Unit
NoneEmpty (l ∷ ls) = (same_text l empty_line ≡ false) × NoneEmpty ls

read_requesthdrs-append :
    (hs rest : List Text) → NoneEmpty hs → read_requesthdrs (hs ++ empty_line ∷ rest) ≡ some rest
unfolding read_requesthdrs same_text
read_requesthdrs-append [] rest h = refl
read_requesthdrs-append (l ∷ hs) rest h = rw h.0 (read_requesthdrs-append hs rest h.1)

read_requesthdrs-none : (hs : List Text) → NoneEmpty hs → read_requesthdrs hs ≡ none
unfolding read_requesthdrs
read_requesthdrs-none [] h = refl
read_requesthdrs-none (l ∷ hs) h = rw h.0 (read_requesthdrs-none hs h.1)

module _ (P : Platform) where
  open P use {scan_request, same_word, stat}

  -- What stands behind a reply that hands out a file or runs a program.
  abbrev pub Allowed : Reply → Type 0
  Allowed (serve_static f t n) =
      (sbuf : Stat) × (stat f ≡ some sbuf)
      × (sbuf.is_regular ≡ true)
      × (sbuf.user_read ≡ true)
      × (t ≡ get_filetype f)
      × (n ≡ sbuf.size)
  Allowed (serve_dynamic f args) =
      (sbuf : Stat) × (stat f ≡ some sbuf) × (sbuf.is_regular ≡ true) × (sbuf.user_exec ≡ true)
  Allowed closed = Unit
  Allowed (client_error cause errnum shortmsg longmsg) =
      lacks newline (errnum ++ bytes " " ++ shortmsg) ≡ true

  either-Allowed :
      (c : Bool) (r r' : Reply)
      → (c ≡ true → Allowed r)
      → (c ≡ false → Allowed r')
      → Allowed (if c then r else r')
  either-Allowed true r r' h k = h refl
  either-Allowed false r r' h k = k refl

  serve-Allowed :
      (p : Parsed) (sbuf : Stat) → stat p.filename ≡ some sbuf → Allowed (serve P p sbuf)
  unfolding serve lacks
  serve-Allowed p sbuf e =
      either-Allowed p.is_static _ _
        (λ static.
          either-Allowed (not (sbuf.is_regular) || not (sbuf.user_read)) _ _ (λ bad. refl)
            (λ good. (sbuf, e, ground arith, ground arith, refl, refl)))
        (λ dynamic.
          either-Allowed (not (sbuf.is_regular) || not (sbuf.user_exec)) _ _ (λ bad. refl)
            (λ good. (sbuf, e, ground arith, ground arith)))

  pub respond-missing :
      (p : Parsed)
      → stat p.filename ≡ none
      → respond P p
        ≡ client_error p.filename
            (bytes "404")
            (bytes "Not found")
            (bytes "Tiny couldn't find this file")
  unfolding respond
  respond-missing p e = rw (e, respond) refl

  pub respond-found :
      (p : Parsed) (sbuf : Stat) → stat p.filename ≡ some sbuf → respond P p ≡ serve P p sbuf
  unfolding respond
  respond-found p sbuf e = rw (e, respond) refl

  respond-Allowed : (p : Parsed) → Allowed (respond P p)
  unfolding lacks
  respond-Allowed p = elim (Option-cases (stat p.filename)) [
    | inl missing ↦ rw (respond-missing p missing) refl
    | inr (sbuf, found) ↦ rw (respond-found p sbuf found) (serve-Allowed p sbuf found)
  ]

  either-OnSome :
      (c : Bool) (o : Option Reply) (r : Reply)
      → OnSome Allowed o
      → Allowed r
      → OnSome Allowed (if c then o else some r)
  either-OnSome true o r h k = h
  either-OnSome false o r h k = k

  doit-OnSome : (lines : List Text) → OnSome Allowed (doit P lines)
  unfolding doit lacks
  doit-OnSome [] = tt
  doit-OnSome (buf ∷ lines) =
      either-OnSome (same_word (scan_request buf).0 (bytes "GET")) _ _
        (OnSome-bind Allowed (read_requesthdrs lines) _
          λ rest. OnSome-bind Allowed (parse_uri (scan_request buf).1) _ λ p. respond-Allowed p)
        refl

  -- The server hands out a file only if `stat` finds it under the very name that is sent, as a
  -- regular file that its user may read, with its size and the type of its name; and it runs a
  -- program only if it is a regular file that its user may run. The status of an error page is one
  -- line.
  pub doit-Allowed : (lines : List Text) {r : Reply} → doit P lines ≡ some r → Allowed r
  doit-Allowed lines e = rw e at (doit-OnSome lines)

  -- A request whose header lines are followed by an empty line is answered, whatever these lines
  -- hold: a GET as `parse_uri` and `respond` say, any other method by the error page 501.
  pub doit_lem :
      (buf : Text) (hs rest : List Text)
      → NoneEmpty hs
      → doit P (buf ∷ hs ++ empty_line ∷ rest) ≡ (
          if same_word (scan_request buf).0 (bytes "GET")
          then (parse_uri (scan_request buf).1 >>= λ p. some (respond P p))
          else some (
              client_error
                (scan_request buf).0
                (bytes "501")
                (bytes "Not Implemented")
                (bytes "Tiny does not implement this method")))
  unfolding doit
  doit_lem buf hs rest h = rw (read_requesthdrs-append hs rest h) refl

  -- A GET request that the client ends before an empty line is never answered.
  doit-no_empty_line :
      (buf : Text) (hs : List Text)
      → NoneEmpty hs
      → same_word (scan_request buf).0 (bytes "GET") ≡ true
      → doit P (buf ∷ hs) ≡ none
  unfolding doit
  doit-no_empty_line buf hs h get = rw get (rw (read_requesthdrs-none hs h) refl)
