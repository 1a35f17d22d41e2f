-- ===== src/Tiny/Sending.antt =====
-- What tiny.c writes to the connection: serve_static, serve_dynamic and clienterror. The files and the
-- CGI programs are parameters. A text that does not fit its buffer is `none`; `sprintf` into the buffer
-- that it also reads is taken to append.
use computer_science.Prelude.{
  ℕ, ◌^◌, List, [], ◌∷◌, ◌++◌, Option, none, some, ltb, ◌>>=◌, if◌then◌else◌, length,
}
use computer_science.Text.{Text, bytes, newline}
use computer_science.Text.Decimal.{decimal}
use computer_science.Tiny.{
  Reply, closed, client_error, serve_static, serve_dynamic, Platform, fit, doit,
}

-- The bytes of a file, and what a program writes to its standard output for a query string; `none` if
-- it does what is undefined.
pub record Site : Type 0 where
  pub file : Text → Text
  pub program : (filename query : Text) → Option Text

abbrev pub crlf : Text
crlf = 13 ∷ newline ∷ []

-- MAXBUF is MAXLINE. The sizes of files are `int`. An empty file cannot be mapped: the client gets its
-- header, behind which the server exits.
unfoldable pub send_static : Site → Text → Text → ℕ → Option Text
unfolding decimal fit
send_static site filename filetype filesize =
    let header =
      bytes "HTTP/1.0 200 OK"
      ++ crlf
      ++ (bytes "Server: Tiny Web Server" ++ crlf)
      ++ (bytes "Connection: close" ++ crlf)
      ++ (bytes "Content-length: " ++ decimal filesize ++ crlf)
      ++ (bytes "Content-type: " ++ filetype ++ crlf ++ crlf) in
    let sent : Option Text = do buf ← fit header; some (buf ++ site.file filename)
    in if ltb filesize (2 ^ 31) then sent else none

-- The header, then what the child process writes.
unfoldable pub send_dynamic : Site → Text → Text → Option Text
send_dynamic site filename cgiargs = do
  output ← site.program filename cgiargs
  some (bytes "HTTP/1.0 200 OK" ++ crlf ++ (bytes "Server: Tiny Web Server" ++ crlf) ++ output)

unfoldable pub error_page : Text → Text → Text → Text → Text
error_page cause errnum shortmsg longmsg =
    bytes "<html><title>Tiny Error</title>"
    ++ (bytes "<body bgcolor=ffffff>" ++ crlf)
    ++ (errnum ++ bytes ": " ++ shortmsg ++ crlf)
    ++ (bytes "<p>" ++ longmsg ++ bytes ": " ++ cause ++ crlf)
    ++ (bytes "<hr><em>The Tiny Web server</em>" ++ crlf)

unfoldable pub send_error : Text → Text → Text → Text → Option Text
unfolding error_page decimal fit
send_error cause errnum shortmsg longmsg = do
  body ← fit (error_page cause errnum shortmsg longmsg)
  buf ← fit (bytes "HTTP/1.0 " ++ errnum ++ bytes " " ++ shortmsg ++ crlf)
  some (
      buf
      ++ (bytes "Content-type: text/html" ++ crlf)
      ++ (bytes "Content-length: " ++ decimal (length body) ++ crlf ++ crlf)
      ++ body)

unfoldable pub send : Site → Reply → Option Text
unfolding send_static send_dynamic send_error
send site closed = some []
send site (client_error cause errnum shortmsg longmsg) = send_error cause errnum shortmsg longmsg
send site (serve_static filename filetype size) = send_static site filename filetype size
send site (serve_dynamic filename cgiargs) = send_dynamic site filename cgiargs

-- A whole connection: the lines of the client, and the bytes that it gets.
unfoldable pub handle : Platform → Site → List Text → Option Text
unfolding doit send
handle P site lines = doit P lines >>= send site
