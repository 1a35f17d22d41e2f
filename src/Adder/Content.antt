-- ===== src/Adder/Content.antt =====
-- What the CGI program prints for two numbers.
use computer_science.Prelude.{
  ◌+◌, ◌<◌, ◌≡◌, ◌∙◌, refl, ap, append_assoc, arith, ◌∷◌, ◌++◌, some, length, length-append,
}
use computer_science.Prelude.Int.{ℤ, pos, negsuc, ◌+ℤ◌}
use computer_science.Text.{Text, bytes, split_at-append}
use computer_science.Text.Decimal.{
  show_int, to_int, IsInt, atoi-show_int, length-show_int, lacks-show_int,
}
use computer_science.Tiny.{maxline}
use computer_science.Tiny.Sending.{crlf}
use computer_science.Tiny.Uri.{fit-some}
use computer_science.Adder.{arguments, content, printed, main}

to_int-IsInt : (z : ℤ) → IsInt z → to_int z ≡ some z
unfolding to_int
to_int-IsInt (pos n) h = ground arith
to_int-IsInt (negsuc n) h = ground arith

arguments-show_int :
    (a b : ℤ) → IsInt a → IsInt b → arguments (some (show_int a ++ b'&' ∷ show_int b)) ≡ some (a, b)
unfolding arguments
arguments-show_int a b ha hb =
    rw (split_at-append b'&' (show_int a) (show_int b) (lacks-show_int b'&' a (omega arith))) (
      rw
        (
          fit-some (show_int a) (omega (arith, length-show_int a ha)),
          fit-some (show_int b) (omega (arith, length-show_int b hb)),
          atoi-show_int a ha,
          atoi-show_int b hb,
        )
        refl)

length-pieces :
    (a p b q c end : Text)
    → length (a ++ p ++ b ++ q ++ c ++ end)
      ≡ length a + length p + length b + length q + length c + length end
length-pieces a p b q c end = omega (
  arith,
  length-append a p,
  length-append (a ++ p) b,
  length-append (a ++ p ++ b) q,
  length-append (a ++ p ++ b ++ q) c,
  length-append (a ++ p ++ b ++ q ++ c) end,
)

abbrev end_of_page : Text
end_of_page = crlf ++ bytes "<p>" ++ (bytes "Thanks for visiting!" ++ crlf)

end-append :
    (s : Text)
    → s ++ crlf ++ bytes "<p>" ++ (bytes "Thanks for visiting!" ++ crlf) ≡ s ++ end_of_page
end-append s =
    append_assoc (s ++ crlf) (bytes "<p>") (bytes "Thanks for visiting!" ++ crlf)
    ∙ append_assoc s crlf (bytes "<p>" ++ (bytes "Thanks for visiting!" ++ crlf))

length-content : (a b sum : ℤ) → IsInt a → IsInt b → IsInt sum → length (content a b sum) < maxline
unfolding content
length-content a b sum ha hb hs =
    let numbers = show_int a ++ bytes " + " ++ show_int b ++ bytes " = " ++ show_int sum in
    omega (
      arith,
      ap length (end-append numbers),
      length-pieces (show_int a) (bytes " + ") (show_int b) (bytes " = ") (show_int sum)
          end_of_page,
      length-show_int a ha,
      length-show_int b hb,
      length-show_int sum hs,
    )

-- For two numbers whose sum is an `int`, the query string that `%d&%d` prints gives the page with the
-- two numbers and their sum, behind its length.
pub main-show_int :
    (a b : ℤ)
    → IsInt a
    → IsInt b
    → IsInt (a +ℤ b)
    → main (some (show_int a ++ b'&' ∷ show_int b)) ≡ some (printed (content a b (a +ℤ b)))
unfolding main
main-show_int a b ha hb hs = rw (arguments-show_int a b ha hb) (
    rw
      (
        to_int-IsInt (a +ℤ b) hs,
        fit-some (content a b (a +ℤ b)) (length-content a b (a +ℤ b) ha hb hs),
      )
      refl)
