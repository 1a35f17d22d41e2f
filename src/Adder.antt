-- ===== src/Adder.antt =====
-- CMU15-213/22-netprog2/tiny/cgi-bin/adder.c: the CGI program that adds two numbers, and its run by tiny.
-- What is undefined (a `strchr` that finds nothing, a sum that is not an `int`) is `none`; `sprintf` into
-- the buffer that it also reads is taken to append.
pub mod Content
pub mod Serving
use computer_science.Prelude.{ℕ, List, [], ◌∷◌, ◌++◌, Option, none, some, ◌>>=◌, length}
use computer_science.Prelude.Int.{ℤ, pos, ◌+ℤ◌}
use computer_science.Text.{Text, bytes, split_at}
use computer_science.Text.Decimal.{decimal, show_int, to_int, atoi}
use computer_science.Tiny.{fit}
use computer_science.Tiny.Sending.{crlf}

-- `n1` and `n2`, from the QUERY_STRING; `getenv` finds none at `none`.
unfoldable pub arguments : Option Text → Option (ℤ × ℤ)
unfolding fit split_at atoi
arguments none = some (pos 0, pos 0)
arguments (some buf) = do
  (before, behind) ← split_at b'&' buf
  arg1 ← fit before
  arg2 ← fit behind
  n1 ← atoi arg1
  n2 ← atoi arg2
  some (n1, n2)

-- The response body; it fits `content`, whatever the numbers are.
unfoldable pub content : (n1 n2 sum : ℤ) → Text
unfolding show_int
content n1 n2 sum =
    bytes "Welcome to add.com: "
    ++ (bytes "THE Internet addition portal." ++ crlf ++ bytes "<p>")
    ++ (bytes "The answer is: "
        ++ show_int n1
        ++ bytes " + "
        ++ show_int n2
        ++ bytes " = "
        ++ show_int sum
        ++ crlf
        ++ bytes "<p>")
    ++ (bytes "Thanks for visiting!" ++ crlf)

-- What `main` prints.
unfoldable pub printed : Text → Text
unfolding decimal
printed body =
    bytes "Connection: close"
    ++ crlf
    ++ (bytes "Content-length: " ++ decimal (length body) ++ crlf)
    ++ (bytes "Content-type: text/html" ++ crlf ++ crlf)
    ++ body

unfoldable pub main : Option Text → Option Text
unfolding arguments content printed to_int fit
main query = do
  (n1, n2) ← arguments query
  sum ← to_int (n1 +ℤ n2)
  body ← fit (content n1 n2 sum)
  some (printed body)
