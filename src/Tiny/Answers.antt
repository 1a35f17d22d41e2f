-- ===== src/Tiny/Answers.antt =====
-- What a client reads from a connection to tiny.
use computer_science.Prelude.{
  ◌+◌, ◌≤◌, ◌<◌, ◌≡◌, ◌∙◌, refl, sym, arith, true, List, [], ◌++◌, Option, none, some, OnSome,
  OnSome-map, ◌>>=◌, length, ◌⊎◌,
}
use mathlib.Core.Path.{subst}
use computer_science.Text.{Text, bytes, newline, lacks}
use computer_science.Tiny.{
  Stat, Reply, closed, client_error, serve_static, serve_dynamic, Platform, get_filetype, doit,
  maxline,
}
use computer_science.Tiny.Requests.{Allowed, doit-Allowed}
use computer_science.Tiny.Sending.{Site, crlf, error_page, send_error, send_dynamic, send, handle}
use computer_science.Tiny.Framing.{Framed, send_error-Framed, send_static-Framed}

-- What the bytes of a connection are to the client.
abbrev pub Answers : Site → Reply → Text → Type 0
Answers site closed out = out ≡ []
Answers site (client_error cause errnum shortmsg longmsg) out =
    Framed out (error_page cause errnum shortmsg longmsg)
Answers site (serve_static f t n) out = Framed out (site.file f)
Answers site (serve_dynamic f args) out =
    (output : Text) × (site.program f args ≡ some output)
    × (out ≡ bytes "HTTP/1.0 200 OK" ++ crlf ++ (bytes "Server: Tiny Web Server" ++ crlf) ++ output)

lacks-get_filetype : (f : Text) → lacks newline (get_filetype f) ≡ true
unfolding get_filetype lacks
lacks-get_filetype f = ground arith

module _ (P : Platform) (site : Site)
    (same_size : (f : Text) (sbuf : Stat)
      → P.stat f ≡ some sbuf
      → sbuf.is_regular ≡ true
      → length (site.file f) ≡ sbuf.size) where
  program_output :
      (o : Option Text)
      → OnSome
          (λ out.
            (output : Text) × (o ≡ some output)
            × (out
                ≡ bytes "HTTP/1.0 200 OK"
                  ++ crlf
                  ++ (bytes "Server: Tiny Web Server" ++ crlf)
                  ++ output))
          (o >>= λ output. some (
            bytes "HTTP/1.0 200 OK" ++ crlf ++ (bytes "Server: Tiny Web Server" ++ crlf) ++ output))
  program_output none = tt
  program_output (some output) = (output, refl, refl)

  send-Answers : (r : Reply) → Allowed P r → OnSome (Answers site r) (send site r)
  unfolding send send_dynamic
  send-Answers closed h = refl
  send-Answers (client_error cause errnum shortmsg longmsg) h =
      send_error-Framed cause errnum shortmsg longmsg h
  send-Answers (serve_static f t n) (sbuf, e, regular, readable, type, size) =
      send_static-Framed site f t n
        (subst (λ (u : Text). lacks newline u ≡ true) (sym type) (lacks-get_filetype f))
        (same_size f sbuf e regular ∙ sym size)
  send-Answers (serve_dynamic f args) h = program_output (site.program f args)

  chosen-Answers :
      (lines : List Text) (o : Option Reply)
      → doit P lines ≡ o
      → OnSome (λ out. (r : Reply) × (doit P lines ≡ some r) × Answers site r out) (o >>= send site)
  chosen-Answers lines none e = tt
  chosen-Answers lines (some r) e =
      OnSome-map (Answers site r) _ (send site r) (send-Answers r (doit-Allowed P lines e))
        (λ out h. (r, e, h))

  -- Whatever tiny sends a client for the lines of a request, `doit` has chosen it, and the client reads
  -- it: an error page or a file comes whole, with its length in the headers, and what a program writes
  -- comes behind the first two header lines. The files have the sizes that `stat` says.
  pub handle-Answers :
      (lines : List Text) {out : Text}
      → handle P site lines ≡ some out
      → (r : Reply) × (doit P lines ≡ some r) × Answers site r out
  unfolding handle
  handle-Answers lines e = rw e at (chosen-Answers lines (doit P lines) refl)

abbrev not_found_page : Text → Text
not_found_page filename =
    error_page filename (bytes "404") (bytes "Not found") (bytes "Tiny couldn't find this file")

abbrev send_not_found : Text → Option Text
send_not_found filename =
    send_error filename (bytes "404") (bytes "Not found") (bytes "Tiny couldn't find this file")

-- What is sent for a file that is not found: the page, if the name is short, and what is undefined.
abbrev pub NotFound : Text → Option Text → Type 0
NotFound filename sent =
    (length filename + 139 < maxline)
      × ((out : Text) × (sent ≡ some out) × Framed out (not_found_page filename))
    ⊎ (maxline ≤ length filename + 139) × (sent ≡ none)
