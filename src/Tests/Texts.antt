-- ===== src/Tests/Texts.antt =====
-- shellex.c and tiny.c on short lines and requests.
use computer_science.Prelude.{
  ℕ, zero, suc, ◌≡◌, refl, arith, List, [], ◌∷◌, ◌++◌, some, true, false, replicate, Returns,
}
use computer_science.Text.{Text, bytes, space, newline, lacks, contains, same_text}
use computer_science.Shell.{parseline}
use computer_science.Shell.Words.{AllWords, Marked, behind, words_of, parseline-words}
use computer_science.Tiny.{Platform, Stat, serve_static, get_filetype, doit, respond}
use computer_science.Tiny.Requests.{NoneEmpty, empty_line, Allowed, doit-Allowed}

-- `  ls -l &` with two spaces in front.
ls_words : AllWords (bytes "ls" ∷ words_of ((0, bytes "-l") ∷ (0, bytes "&") ∷ []))
unfolding lacks
ls_words = ((omega arith, refl), ((omega arith, refl), ((omega arith, refl), tt)))

parseline-words_example : Returns (Marked (bytes "ls" ∷ bytes "-l" ∷ bytes "&" ∷ [])) (
    parseline (
      replicate 2 space
      ++ (bytes "ls" ++ behind ((0, bytes "-l") ∷ (0, bytes "&") ∷ []) 0)
      ++ newline ∷ []))
parseline-words_example =
    parseline-words 2 (bytes "ls") ((0, bytes "-l") ∷ (0, bytes "&") ∷ []) 0 ls_words (omega arith)

adder-lacks : lacks b'?' (bytes "/cgi-bin/adder") ≡ true
unfolding lacks
adder-lacks = refl

adder_1-contains : contains (bytes "cgi-bin") (bytes "/cgi-bin/adder" ++ b'?' ∷ bytes "1&2") ≡ true
unfolding contains
adder_1-contains = refl

adder-contains : contains (bytes "cgi-bin") (bytes "/cgi-bin/adder") ≡ true
unfolding contains
adder-contains = refl

docs-contains : contains (bytes "cgi-bin") (bytes "/docs" ++ b'/' ∷ []) ≡ false
unfolding contains
docs-contains = refl

abbrev long_uri : Text
long_uri = replicate 8185 b'a'

contains-replicate : (n : ℕ) → contains (bytes "cgi-bin") (replicate n b'a' ++ b'/' ∷ []) ≡ false
unfolding contains
contains-replicate zero = refl
contains-replicate (suc n) = contains-replicate n

-- Every request is for `/a.html`, a file of three bytes that the user may read.
abbrev page : Stat
page = record { is_regular = true; user_read = true; user_exec = false; size = 3 }

abbrev one_page : Platform
one_page = record {
  scan_request = λ line. (bytes "GET", bytes "/a.html", bytes "HTTP/1.0");
  same_word = same_text;
  stat = λ f. some page;
}

abbrev request : List Text
request = bytes "GET /a.html HTTP/1.0" ∷ bytes "Host: x" ∷ empty_line ∷ []

host-NoneEmpty : NoneEmpty (bytes "Host: x" ∷ [])
unfolding same_text
host-NoneEmpty = (refl, tt)

request-served :
    doit one_page request
    ≡ some (serve_static (b'.' ∷ bytes "/a.html") (get_filetype (b'.' ∷ bytes "/a.html")) 3)
unfolding doit same_text respond
request-served = refl

doit-Allowed_example :
    Allowed one_page
      (serve_static (b'.' ∷ bytes "/a.html") (get_filetype (b'.' ∷ bytes "/a.html")) 3)
doit-Allowed_example = doit-Allowed one_page request request-served

get-same : same_text (bytes "GET") (bytes "GET") ≡ true
unfolding same_text
get-same = refl
