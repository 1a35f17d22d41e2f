-- ===== src/Tests/Serving.antt =====
-- tiny.c and adder.c on short requests.
use computer_science.Prelude.{
  ◌≡◌, refl, arith, true, false, Bool, List, [], ◌∷◌, ◌++◌, Option, none, some, length, OnSome, inl,
  if◌then◌else◌,
}
use computer_science.Prelude.Int.{pos, negsuc, ◌+ℤ◌}
use computer_science.Text.{Text, bytes, same_text, contains}
use computer_science.Text.Decimal.{show_int, decimal}
use computer_science.Tiny.{Platform, Stat, Parsed, Reply, doit}
use computer_science.Tiny.Requests.{NoneEmpty, empty_line}
use computer_science.Tiny.Sending.{Site, crlf, error_page, handle}
use computer_science.Tiny.Framing.{Framed}
use computer_science.Tiny.Answers.{Answers, handle-Answers}
use computer_science.Adder.{main}
use computer_science.Adder.Serving.{
  adder_uri, adder_file, sum_page, handle-adder, handle-NoAmpersand,
}

abbrev program_file : Stat
program_file = record { is_regular = true; user_read = true; user_exec = true; size = 3 }

-- The only file is the program.
abbrev files : Text → Option Stat
files f = if same_text f adder_file then some program_file else none

abbrev asking : Text → Platform
asking uri = record {
  scan_request = λ line. (bytes "GET", uri, bytes "HTTP/1.0");
  same_word = same_text;
  stat = files;
}

abbrev site : Site
site = record { file = λ f. 1 ∷ 2 ∷ 3 ∷ []; program = λ f query. main (some query) }

abbrev hs : List Text
hs = bytes "Host: x" ∷ []

host-NoneEmpty : NoneEmpty hs
unfolding same_text
host-NoneEmpty = (refl, tt)

get-same : same_text (bytes "GET") (bytes "GET") ≡ true
unfolding same_text
get-same = refl

found : files adder_file ≡ some program_file
unfolding same_text
found = refl

abbrev line : Text
line = bytes "GET x HTTP/1.0"

abbrev sum_uri : Text
sum_uri = adder_uri ++ b'?' ∷ (show_int (pos 15213) ++ b'&' ∷ show_int (negsuc 0))

handle-adder_example :
    (out : Text) × (handle (asking sum_uri) site (line ∷ hs ++ empty_line ∷ []) ≡ some out)
    × Framed out (sum_page (pos 15213) (negsuc 0))
unfolding ◌+ℤ◌
handle-adder_example =
    handle-adder (asking sum_uri) site program_file found refl refl (λ query. refl) line hs []
      (pos 15213) (negsuc 0) host-NoneEmpty get-same refl (omega arith) (omega arith) (omega arith)

handle-NoAmpersand_example : handle (asking adder_uri) site (line ∷ hs ++ empty_line ∷ []) ≡ none
handle-NoAmpersand_example =
    handle-NoAmpersand (asking adder_uri) site program_file found refl refl (λ query. refl) line hs
      [] host-NoneEmpty get-same (inl refl)

abbrev missing : Text
missing = bytes "/b.html"

abbrev missing_file : Parsed
missing_file = record { is_static = true; filename = b'.' ∷ missing; cgiargs = [] }

either-size :
    (c : Bool) → OnSome (λ (sbuf : Stat). 3 ≡ sbuf.size) (if c then some program_file else none)
either-size true = refl
either-size false = tt

files-size : (f : Text) → OnSome (λ (sbuf : Stat). 3 ≡ sbuf.size) (files f)
files-size f = either-size (same_text f adder_file)

same_size :
    (f : Text) (sbuf : Stat)
    → files f ≡ some sbuf
    → sbuf.is_regular ≡ true
    → length (site.file f) ≡ sbuf.size
same_size f sbuf e regular = rw e at (files-size f)

abbrev page : Text
page =
    bytes "HTTP/1.0 404 Not found"
    ++ crlf
    ++ (bytes "Content-type: text/html" ++ crlf)
    ++ (bytes "Content-length: 147" ++ crlf ++ crlf)
    ++ error_page (b'.' ∷ missing) (bytes "404") (bytes "Not found")
        (bytes "Tiny couldn't find this file")

page-sent : handle (asking missing) site (line ∷ hs ++ empty_line ∷ []) ≡ some page
unfolding handle same_text contains decimal
page-sent = refl

handle-Answers_example :
    (r : Reply) × (doit (asking missing) (line ∷ hs ++ empty_line ∷ []) ≡ some r)
    × Answers site r page
handle-Answers_example =
    handle-Answers (asking missing) site same_size (line ∷ hs ++ empty_line ∷ []) page-sent
