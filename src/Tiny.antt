-- ===== src/Tiny.antt =====
-- CMU15-213/22-netprog2/tiny/tiny.c: the Web server's handling of one request. `none` is undefined
-- behaviour: a text that does not fit its buffer of MAXLINE bytes, or a read in front of one. What
-- is read from the connection, `sscanf` and `stat` are parameters; the console output is left out,
-- and so is what the child process and `mmap` do with the file.
pub mod Uri
pub mod Requests
pub mod Sending
pub mod Framing
pub mod Answers
use computer_science.Prelude.{
  ℕ, ◌+◌, ◌-◌, ◌<◌, ◌≡◌, Bool, true, false, not, ◌&&◌, ◌||◌, List, [], ◌∷◌, ◌++◌, Option, none,
  some, ◌==◌, ltb, leb, ◌>>=◌, if◌then◌else◌, length,
}
use computer_science.Text.{Text, bytes, newline, split_at, contains, same_text}

abbrev pub maxline : ℕ
maxline = 8192

-- A `strcpy` or `strcat` into a buffer of MAXLINE bytes: the text and its NUL have to fit.
unfoldable pub fit : Text → Option Text
fit t = if ltb (length t) maxline then some t else none

-- `uri[strlen(uri)-1] == '/'`
unfoldable pub ends_in_slash : Text → Option Bool
ends_in_slash [] = none
ends_in_slash (x ∷ []) = some (x == b'/')
ends_in_slash (x ∷ y ∷ s) = ends_in_slash (y ∷ s)

-- The result of `parse_uri`, with what it leaves in `filename` and `cgiargs`.
pub record Parsed : Type 0 where
  pub is_static : Bool
  pub filename : Text
  pub cgiargs : Text

-- The `if (ptr) { strcpy(cgiargs, ptr+1); *ptr = '\0'; }` of the dynamic branch: the rest of the
-- URI, and the arguments.
unfoldable pub cut_args : Text → Option (Text × Text) → Text × Text
cut_args uri none = (uri, [])
cut_args uri (some (path, args)) = (path, args)

unfoldable pub parse_uri : Text → Option Parsed
unfolding fit ends_in_slash cut_args split_at contains
parse_uri uri =
    let static : Option Parsed = do
      filename ← fit (b'.' ∷ uri)
      slash ← ends_in_slash uri
      full ← fit (if slash then filename ++ bytes "home.html" else filename)
      some (record { is_static = true; filename = full; cgiargs = [] })
    in let dynamic : Option Parsed = do
      let (path, args) = cut_args uri (split_at b'?' uri)
      cgiargs ← fit args
      filename ← fit (b'.' ∷ path)
      some (record { is_static = false; filename = filename; cgiargs = cgiargs })
      in if contains (bytes "cgi-bin") uri then dynamic else static

unfoldable pub get_filetype : Text → Text
unfolding contains
get_filetype filename =
    if contains (bytes ".html") filename
    then bytes "text/html"
    else if contains (bytes ".gif") filename
    then bytes "image/gif"
    else if contains (bytes ".png") filename
    then bytes "image/png"
    else if contains (bytes ".jpg") filename
    then bytes "image/jpeg"
    else bytes "text/plain"

-- The fields of `struct stat` that `doit` looks at.
pub record Stat : Type 0 where
  pub is_regular : Bool
  pub user_read : Bool
  pub user_exec : Bool
  pub size : ℕ

-- What `doit` sends: an error page, a file with its size and type, or the output of a program.
pub data Reply : Type 0 where
  closed : Reply
  client_error : (cause errnum shortmsg longmsg : Text) → Reply
  serve_static : (filename filetype : Text) (size : ℕ) → Reply
  serve_dynamic : (filename cgiargs : Text) → Reply

-- What tiny.c calls and does not implement: the three words that `sscanf` reads from a request line
-- (for a line of fewer words, which `doit` does not check, whatever its buffers happened to hold),
-- `strcasecmp(s, t) == 0`, and `stat`, which finds no file at `none`.
pub record Platform : Type 0 where
  pub scan_request : Text → Text × Text × Text
  pub same_word : Text → Text → Bool
  pub stat : Text → Option Stat

-- `read_requesthdrs` reads lines up to an empty one; the lines are those still to come, and at the
-- end of the input it reads no further line and goes on for ever: `none`.
unfoldable pub read_requesthdrs : List Text → Option (List Text)
read_requesthdrs [] = none
read_requesthdrs (l ∷ rest) =
    let more = read_requesthdrs rest in if same_text l (13 ∷ newline ∷ []) then some rest else more

module _ (P : Platform) where
  open P use {scan_request, same_word, stat}

  -- The end of `doit`, for a file that `stat` finds.
  unfoldable pub serve : Parsed → Stat → Reply
  unfolding get_filetype
  serve p sbuf =
      if p.is_static
      then (if not (sbuf.is_regular) || not (sbuf.user_read)
          then client_error p.filename (bytes "403") (bytes "Forbidden")
              (bytes "Tiny couldn't read the file")
          else serve_static p.filename (get_filetype p.filename) sbuf.size)
      else (if not (sbuf.is_regular) || not (sbuf.user_exec)
          then client_error p.filename (bytes "403") (bytes "Forbidden")
              (bytes "Tiny couldn't run the CGI program")
          else serve_dynamic p.filename p.cgiargs)

  unfoldable pub respond : Parsed → Reply
  unfolding serve
  respond p = elim (stat p.filename) [
    | none ↦
        client_error p.filename (bytes "404") (bytes "Not found")
          (bytes "Tiny couldn't find this file")
    | some sbuf ↦ serve p sbuf
  ]

  -- `doit`, on the lines that the client sends.
  unfoldable pub doit : List Text → Option Reply
  unfolding respond parse_uri read_requesthdrs
  doit [] = some closed
  doit (buf ∷ lines) =
      let (method, uri, version) = scan_request buf in
      let served : Option Reply = do
        rest ← read_requesthdrs lines
        p ← parse_uri uri
        some (respond p)
      in if same_word method (bytes "GET")
        then served
        else some (
            client_error method (bytes "501") (bytes "Not Implemented")
              (bytes "Tiny does not implement this method"))
