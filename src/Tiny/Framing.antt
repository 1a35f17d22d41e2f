-- ===== src/Tiny/Framing.antt =====
-- How a client reads a response: header lines up to an empty one, among them the length of the content.
use computer_science.Prelude.{
  ℕ, zero, suc, ◌≡◌, ◌∙◌, refl, sym, ap, arith, Bool, true, false, [], ◌∷◌, ◌++◌, append_assoc,
  Option, none, some, ltb, ◌>>=◌, if◌then◌else◌, length, inl, inr, Bool-cases, OnSome, ◌^◌,
}
use computer_science.Text.{
  Text, bytes, newline, split_at, starts_with, same_text, lacks, split_at-append,
}
use computer_science.Text.Decimal.{decimal, read_digits, read_digits-before, lacks-decimal}
use computer_science.Tiny.{fit, maxline}
use computer_science.Tiny.Sending.{crlf, error_page, send_error, send_static, Site}

abbrev skip : ℕ → Text → Text
skip zero t = t
skip (suc n) [] = []
skip (suc n) (c ∷ t) = skip n t

-- The number of a line `Content-length: ...`, or what was known before.
abbrev line_length : Option ℕ → Text → Option ℕ
line_length known line =
    if starts_with (bytes "Content-length: ") line
    then some (read_digits (skip 16 line) 0)
    else known

-- The length that the headers give, and what stands behind the empty line.
unfoldable pub read_headers : ℕ → Option ℕ → Text → Option (Option ℕ × Text)
unfolding starts_with read_digits split_at same_text
read_headers zero known t = none
read_headers (suc fuel) known t = do
  (line, rest) ← split_at newline t
  let more = read_headers fuel (line_length known line) rest
  (if same_text line (13 ∷ []) then some (known, rest) else more)

-- Of at most ten header lines
unfoldable pub read_response : Text → Option (Option ℕ × Text)
unfolding read_headers
read_response t = read_headers 10 none t

lacks-append : (c : ℕ) (s t : Text) → lacks c s ≡ true → lacks c t ≡ true → lacks c (s ++ t) ≡ true
unfolding lacks
lacks-append c [] t h k = k
lacks-append c (x ∷ s) t h k = ground (arith, lacks-append c s t)

-- A line, with its carriage return.
abbrev return_of : Text → Text
return_of line = line ++ 13 ∷ []

crlf-return_of : (line rest : Text) → line ++ crlf ++ rest ≡ return_of line ++ newline ∷ rest
crlf-return_of line rest =
    append_assoc line crlf rest ∙ sym (append_assoc line (13 ∷ []) (newline ∷ rest))

split_line :
    (line rest : Text)
    → lacks newline line ≡ true
    → split_at newline (line ++ crlf ++ rest) ≡ some (return_of line, rest)
unfolding lacks
split_line line rest plain =
    ap (split_at newline) (crlf-return_of line rest)
    ∙ split_at-append newline (return_of line) rest (lacks-append newline line (13 ∷ []) plain refl)

-- A header line is read, and what it says of the length.
pub read_headers-line :
    (fuel : ℕ) (known : Option ℕ) (line rest : Text)
    → lacks newline line ≡ true
    → same_text (return_of line) (13 ∷ []) ≡ false
    → read_headers (suc fuel) known (line ++ crlf ++ rest)
      ≡ read_headers fuel (line_length known (return_of line)) rest
unfolding read_headers
read_headers-line fuel known line rest plain some_line =
    rw (split_line line rest plain) (rw some_line refl)

pub read_headers-end :
    (fuel : ℕ) (known : Option ℕ) (rest : Text)
    → read_headers (suc fuel) known (crlf ++ rest) ≡ some (known, rest)
unfolding read_headers
read_headers-end fuel known rest = refl

-- The line of the length.
abbrev pub length_line : ℕ → Text
length_line n = bytes "Content-length: " ++ decimal n

pub read_headers-length :
    (fuel n : ℕ) (known : Option ℕ) (rest : Text)
    → read_headers (suc fuel) known (length_line n ++ crlf ++ rest)
      ≡ read_headers fuel (some n) rest
unfolding lacks same_text starts_with read_digits
read_headers-length fuel n known rest =
    read_headers-line fuel known (length_line n) rest (lacks-decimal newline n (omega arith)) refl
    ∙ ap (λ (m : ℕ). read_headers fuel (some m) rest) (read_digits-before n (13 ∷ []) refl)

-- The content and its length are read from a response.
abbrev pub Framed : Text → Text → Type 0
Framed out body = read_response out ≡ some (some (length body), body)

OnSome-if :
    (Q : Text → Type 0) (c : Bool) (o : Option Text) → OnSome Q o → OnSome Q (if c then o else none)
OnSome-if Q true o h = h
OnSome-if Q false o h = tt

-- A text that fits its buffer is used as it is.
OnSome-fit :
    (Q : Text → Type 0) (t : Text) (f : Text → Option Text)
    → OnSome Q (f t)
    → OnSome Q (fit t >>= f)
unfolding fit
OnSome-fit Q t f h = elim (Bool-cases (ltb (length t) maxline)) [
  | inl fits ↦ rw fits h
  | inr too_long ↦ rw too_long tt
]

read_headers-type :
    (fuel : ℕ) (known : Option ℕ) (filetype body : Text)
    → lacks newline filetype ≡ true
    → read_headers
        (suc (suc fuel))
        known
        (bytes "Content-type: " ++ filetype ++ crlf ++ (crlf ++ body))
      ≡ some (known, body)
unfolding lacks same_text starts_with
read_headers-type fuel known filetype body plain =
    read_headers-line (suc fuel) known (bytes "Content-type: " ++ filetype) (crlf ++ body) plain
      refl
    ∙ read_headers-end fuel known body

read_headers-plain :
    (fuel : ℕ) (known : Option ℕ) (line rest : Text)
    → lacks newline line ≡ true
    → same_text (return_of line) (13 ∷ []) ≡ false
    → line_length known (return_of line) ≡ known
    → read_headers (suc fuel) known (line ++ crlf ++ rest) ≡ read_headers fuel known rest
read_headers-plain fuel known line rest plain some_line other =
    read_headers-line fuel known line rest plain some_line
    ∙ ap (λ (k : Option ℕ). read_headers fuel k rest) other

flatten : (s t u v : Text) → s ++ t ++ u ++ v ≡ s ++ (t ++ (u ++ v))
flatten s t u v = append_assoc (s ++ t) u v ∙ append_assoc s t (u ++ v)

-- The response that carries an error page.
page_response : Text → Text → Text
page_response word body =
    bytes "HTTP/1.0 "
    ++ word
    ++ crlf
    ++ (bytes "Content-type: text/html" ++ crlf)
    ++ (bytes "Content-length: " ++ decimal (length body) ++ crlf ++ crlf)
    ++ body

page_response-lines :
    (word body : Text)
    → page_response word body
      ≡ bytes "HTTP/1.0 "
        ++ word
        ++ crlf
        ++ (bytes "Content-type: text/html"
            ++ crlf
            ++ (length_line (length body) ++ crlf ++ (crlf ++ body)))
unfolding page_response
page_response-lines word body =
    flatten (bytes "HTTP/1.0 " ++ word ++ crlf) (bytes "Content-type: text/html" ++ crlf)
      (length_line (length body) ++ crlf ++ crlf) body
    ∙ ap
        (λ (t : Text).
          bytes "HTTP/1.0 " ++ word ++ crlf ++ (bytes "Content-type: text/html" ++ crlf ++ t))
        (append_assoc (length_line (length body) ++ crlf) crlf body)

page_response-Framed :
    (word body : Text) → lacks newline word ≡ true → Framed (page_response word body) body
unfolding read_response lacks same_text starts_with
page_response-Framed word body plain =
    let last = length_line (length body) ++ crlf ++ (crlf ++ body) in
    ap read_response (page_response-lines word body)
    ∙ read_headers-plain 9 none (bytes "HTTP/1.0 " ++ word)
        (bytes "Content-type: text/html" ++ crlf ++ last) plain refl refl
    ∙ read_headers-plain 8 none (bytes "Content-type: text/html") last refl refl refl
    ∙ read_headers-length 7 (length body) none (crlf ++ body)
    ∙ read_headers-end 6 (some (length body)) body

pub send_error-Framed :
    (cause errnum shortmsg longmsg : Text)
    → lacks newline (errnum ++ bytes " " ++ shortmsg) ≡ true
    → OnSome
        (λ out. Framed out (error_page cause errnum shortmsg longmsg))
        (send_error cause errnum shortmsg longmsg)
unfolding send_error page_response
send_error-Framed cause errnum shortmsg longmsg plain =
    let page = error_page cause errnum shortmsg longmsg in
    let word = errnum ++ bytes " " ++ shortmsg in
    OnSome-fit (λ out. Framed out page) page
      (λ body. do
        buf ← fit (bytes "HTTP/1.0 " ++ word ++ crlf)
        some (
            buf
            ++ (bytes "Content-type: text/html" ++ crlf)
            ++ (bytes "Content-length: " ++ decimal (length body) ++ crlf ++ crlf)
            ++ body))
      (OnSome-fit (λ out. Framed out page) (bytes "HTTP/1.0 " ++ word ++ crlf)
        (λ buf. some (
          buf
          ++ (bytes "Content-type: text/html" ++ crlf)
          ++ (bytes "Content-length: " ++ decimal (length page) ++ crlf ++ crlf)
          ++ page))
        (page_response-Framed word page plain))

-- Behind the length of a file: its type, an empty line and itself.
static_rest :
    (n : ℕ) (filetype body : Text)
    → (bytes "Content-length: " ++ decimal n ++ crlf)
        ++ (bytes "Content-type: " ++ filetype ++ crlf ++ crlf)
        ++ body
      ≡ length_line n ++ crlf ++ (bytes "Content-type: " ++ filetype ++ crlf ++ (crlf ++ body))
static_rest n filetype body =
    append_assoc (length_line n ++ crlf) (bytes "Content-type: " ++ filetype ++ crlf ++ crlf) body
    ∙ ap (λ (t : Text). length_line n ++ crlf ++ t)
        (append_assoc (bytes "Content-type: " ++ filetype ++ crlf) crlf body)

-- The first three lines say nothing of the length.
read_response-static :
    (n : ℕ) (rest : Text)
    → read_response (
        bytes "HTTP/1.0 200 OK"
        ++ crlf
        ++ (bytes "Server: Tiny Web Server" ++ crlf)
        ++ (bytes "Connection: close" ++ crlf)
        ++ rest)
      ≡ read_headers 7 none rest
unfolding read_response lacks same_text starts_with
read_response-static n rest =
    read_headers-plain 9 none (bytes "HTTP/1.0 200 OK")
      (bytes "Server: Tiny Web Server" ++ crlf ++ (bytes "Connection: close" ++ crlf ++ rest)) refl
      refl refl
    ∙ read_headers-plain 8 none (bytes "Server: Tiny Web Server")
        (bytes "Connection: close" ++ crlf ++ rest) refl refl refl
    ∙ read_headers-plain 7 none (bytes "Connection: close") rest refl refl refl

unfoldable pub static_response : ℕ → Text → Text → Text
static_response n filetype body =
    bytes "HTTP/1.0 200 OK"
    ++ crlf
    ++ (bytes "Server: Tiny Web Server" ++ crlf)
    ++ (bytes "Connection: close" ++ crlf)
    ++ (bytes "Content-length: " ++ decimal n ++ crlf)
    ++ (bytes "Content-type: " ++ filetype ++ crlf ++ crlf)
    ++ body

pub static_response-Framed :
    (n : ℕ) (filetype body : Text)
    → lacks newline filetype ≡ true
    → length body ≡ n
    → Framed (static_response n filetype body) body
unfolding static_response lacks same_text starts_with
static_response-Framed n filetype body plain size =
    read_response-static n (
      (bytes "Content-length: " ++ decimal n ++ crlf)
      ++ (bytes "Content-type: " ++ filetype ++ crlf ++ crlf)
      ++ body)
    ∙ ap (read_headers 7 none) (static_rest n filetype body)
    ∙ read_headers-length 6 n none (bytes "Content-type: " ++ filetype ++ crlf ++ (crlf ++ body))
    ∙ read_headers-type 4 (some n) filetype body plain
    ∙ ap (λ (m : ℕ). some (some m, body)) (sym size)

pub send_static-Framed :
    (site : Site) (filename filetype : Text) (filesize : ℕ)
    → lacks newline filetype ≡ true
    → length (site.file filename) ≡ filesize
    → OnSome (λ out. Framed out (site.file filename)) (send_static site filename filetype filesize)
unfolding send_static static_response
send_static-Framed site filename filetype filesize plain size =
    let body = site.file filename in
    OnSome-if _ (ltb filesize (2 ^ 31)) _ (
      OnSome-fit (λ out. Framed out body)
        (bytes "HTTP/1.0 200 OK"
          ++ crlf
          ++ (bytes "Server: Tiny Web Server" ++ crlf)
          ++ (bytes "Connection: close" ++ crlf)
          ++ (bytes "Content-length: " ++ decimal filesize ++ crlf)
          ++ (bytes "Content-type: " ++ filetype ++ crlf ++ crlf))
        (λ buf. some (buf ++ body)) (static_response-Framed filesize filetype body plain size))
