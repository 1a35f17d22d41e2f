-- ===== src/Adder/Serving.antt =====
-- A request for the CGI program, from the client through tiny to `main` of adder.c and back.
use computer_science.Prelude.{
  ◌<◌, ◌≡◌, ◌∙◌, refl, ap, arith, true, false, List, [], ◌∷◌, ◌++◌, Option, none, some, inl, inr,
  ◌⊎◌, length, length-append, append_assoc, ◌>>=◌,
}
use mathlib.Core.Path.{subst}
use computer_science.Prelude.Int.{ℤ, ◌+ℤ◌}
use computer_science.Text.{Text, bytes, lacks, contains, split_at-none}
use computer_science.Text.Decimal.{show_int, IsInt, length-show_int}
use computer_science.Tiny.{Platform, Stat, Reply, maxline, parse_uri, respond, serve, serve_dynamic}
use computer_science.Tiny.Uri.{parse_uri-dynamic, parse_uri-no_args}
use computer_science.Tiny.Requests.{NoneEmpty, empty_line, doit_lem, respond-found}
use computer_science.Tiny.Sending.{Site, crlf, send, send_dynamic, handle}
use computer_science.Tiny.Framing.{Framed, static_response-Framed, static_response}
use computer_science.Adder.{arguments, content, printed, main}
use computer_science.Adder.Content.{main-show_int}

abbrev pub adder_uri : Text
adder_uri = bytes "/cgi-bin/adder"

abbrev pub adder_file : Text
adder_file = b'.' ∷ adder_uri

-- The page for the numbers `a` and `b`, written out: with their sum as integers.
abbrev pub sum_page : ℤ → ℤ → Text
sum_page a b =
    bytes "Welcome to add.com: THE Internet addition portal."
    ++ crlf
    ++ bytes "<p>The answer is: "
    ++ show_int a
    ++ bytes " + "
    ++ show_int b
    ++ bytes " = "
    ++ show_int (a +ℤ b)
    ++ (crlf ++ bytes "<p>Thanks for visiting!" ++ crlf)

content-sum_page : (a b : ℤ) → content a b (a +ℤ b) ≡ sum_page a b
unfolding content
content-sum_page a b =
    let numbers = show_int a ++ bytes " + " ++ show_int b ++ bytes " = " ++ show_int (a +ℤ b) in
    ap
      (λ (t : Text).
        bytes "Welcome to add.com: THE Internet addition portal."
        ++ crlf
        ++ bytes "<p>The answer is: "
        ++ t)
      (append_assoc (numbers ++ crlf) (bytes "<p>") (bytes "Thanks for visiting!" ++ crlf)
        ∙ append_assoc numbers crlf (bytes "<p>Thanks for visiting!" ++ crlf))

-- The two header lines of `serve_dynamic` and those of `main` are the five that `serve_static` sends.
printed-Framed :
    (body : Text)
    → Framed
        (bytes "HTTP/1.0 200 OK"
          ++ crlf
          ++ (bytes "Server: Tiny Web Server" ++ crlf)
          ++ printed body)
        body
unfolding printed static_response lacks
printed-Framed body = static_response-Framed (length body) (bytes "text/html") body refl refl

module _ (P : Platform) (site : Site) (sbuf : Stat) (found : P.stat adder_file ≡ some sbuf)
    (regular : sbuf.is_regular ≡ true) (runs : sbuf.user_exec ≡ true)
    (is_adder : (query : Text) → site.program adder_file query ≡ main (some query)) where
  respond-adder :
      (args : Text)
      → respond P (record { is_static = false; filename = adder_file; cgiargs = args })
        ≡ serve_dynamic adder_file args
  unfolding serve
  respond-adder args =
      respond-found P (record { is_static = false; filename = adder_file; cgiargs = args }) sbuf
        found
      ∙ rw (regular, runs) refl

  handle-args :
      (buf : Text) (hs rest : List Text) (args : Text)
      → NoneEmpty hs
      → P.same_word (P.scan_request buf).0 (bytes "GET") ≡ true
      → parse_uri (P.scan_request buf).1
        ≡ some (record { is_static = false; filename = adder_file; cgiargs = args })
      → handle P site (buf ∷ hs ++ empty_line ∷ rest) ≡ send_dynamic site adder_file args
  unfolding handle send
  handle-args buf hs rest args plain get parsed =
      ap (λ (r : Option Reply). r >>= send site)
        (doit_lem P buf hs rest plain ∙ rw get (rw parsed refl) ∙ ap some (respond-adder args))

  -- A GET of `/cgi-bin/adder?a&b`, with two numbers as `%d` prints them whose sum is an `int`, its header
  -- lines and an empty one, is answered by the page that shows them and their sum, and the client reads it
  -- whole, with its length. The program is a regular file that its user may run, and it is adder.c.
  pub handle-adder :
      (buf : Text) (hs rest : List Text) (a b : ℤ)
      → NoneEmpty hs
      → P.same_word (P.scan_request buf).0 (bytes "GET") ≡ true
      → (P.scan_request buf).1 ≡ adder_uri ++ b'?' ∷ (show_int a ++ b'&' ∷ show_int b)
      → IsInt a
      → IsInt b
      → IsInt (a +ℤ b)
      → (out : Text) × (handle P site (buf ∷ hs ++ empty_line ∷ rest) ≡ some out)
        × Framed out (sum_page a b)
  unfolding send_dynamic contains lacks
  handle-adder buf hs rest a b plain get asked ha hb hs_int =
      let args = show_int a ++ b'&' ∷ show_int b in
      let short : length args < maxline = omega (
        arith,
        length-append (show_int a) (b'&' ∷ show_int b),
        length-show_int a ha,
        length-show_int b hb,
      ) in
      let parsed =
        ap parse_uri asked ∙ parse_uri-dynamic adder_uri args refl (omega arith) short refl in
      let body = content a b (a +ℤ b) in
      let output = is_adder args ∙ main-show_int a b ha hb hs_int in
      (
        _,
        handle-args buf hs rest args plain get parsed ∙ rw output refl,
        subst (Framed _) (content-sum_page a b) (printed-Framed body),
      )

  -- The queries that `main` of adder.c cannot split: no `?` at all, or no `&` behind it.
  abbrev pub NoAmpersand : Text → Type 0
  NoAmpersand uri =
      (uri ≡ adder_uri)
      ⊎ ((args : Text) × (uri ≡ adder_uri ++ b'?' ∷ args)
          × (lacks b'&' args ≡ true)
          × (length args < maxline))

  no_ampersand : (args : Text) → lacks b'&' args ≡ true → main (some args) ≡ none
  unfolding main arguments
  no_ampersand args plain = rw (split_at-none b'&' args plain) refl

  undefined_args :
      (buf : Text) (hs rest : List Text) (args : Text)
      → NoneEmpty hs
      → P.same_word (P.scan_request buf).0 (bytes "GET") ≡ true
      → parse_uri (P.scan_request buf).1
        ≡ some (record { is_static = false; filename = adder_file; cgiargs = args })
      → lacks b'&' args ≡ true
      → handle P site (buf ∷ hs ++ empty_line ∷ rest) ≡ none
  unfolding send_dynamic
  undefined_args buf hs rest args plain get parsed none_there =
      handle-args buf hs rest args plain get parsed
      ∙ rw (is_adder args ∙ no_ampersand args none_there) refl

  -- A GET of `/cgi-bin/adder` with no query, or with one that has no `&`, is undefined: `main` of adder.c
  -- writes through the null pointer that its `strchr` returns.
  pub handle-NoAmpersand :
      (buf : Text) (hs rest : List Text)
      → NoneEmpty hs
      → P.same_word (P.scan_request buf).0 (bytes "GET") ≡ true
      → NoAmpersand (P.scan_request buf).1
      → handle P site (buf ∷ hs ++ empty_line ∷ rest) ≡ none
  unfolding lacks contains
  handle-NoAmpersand buf hs rest plain get (inl e) =
      undefined_args buf hs rest [] plain get
        (ap parse_uri e ∙ parse_uri-no_args adder_uri refl (omega arith) refl) refl
  handle-NoAmpersand buf hs rest plain get (inr (args, e, none_there, short)) =
      undefined_args buf hs rest args plain get
        (ap parse_uri e ∙ parse_uri-dynamic adder_uri args refl (omega arith) short refl) none_there
