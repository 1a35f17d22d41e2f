-- ===== src/Text/Decimal/Scanning.antt =====
-- `%d` of `scanf`, by its documented result.
use computer_science.Prelude.{
  ℕ, zero, suc, ◌+◌, ◌/◌, ◌%◌, ◌≡◌, ◌∙◌, refl, sym, ap, arith, inl, inr, true, false, [], ◌∷◌, ◌++◌,
  Option, none, some, ◌==◌, ◌>>=◌, if◌then◌else◌, Bool-cases,
}
use computer_science.Prelude.Int.{ℤ, pos, negsuc}
use computer_science.Text.{Text}
use computer_science.Text.Decimal.{
  digits, decimal, show_int, is_digit, negative, read_digits, to_int, skip_white, skip_white-digit,
  IsInt, decimal-start, read_digits-before,
}

unfoldable pub drop_digits : Text → Text
drop_digits [] = []
drop_digits (c ∷ s) = let rest = drop_digits s in if is_digit c then rest else c ∷ s

-- A number behind its sign: what is stored, if there is one, and what is left to read. A number that is
-- not an `int` is undefined.
unfoldable pub scan_number : (ℕ → ℤ) → Text → Option (Option ℤ × Text)
unfolding drop_digits to_int
scan_number sign [] = some (none, [])
scan_number sign (c ∷ s) =
    if is_digit c
    then (to_int (sign (read_digits (c ∷ s) 0)) >>= λ z. some (some z, drop_digits (c ∷ s)))
    else some (none, c ∷ s)

unfoldable pub scan_signed : Text → Option (Option ℤ × Text)
unfolding scan_number
scan_signed [] = some (none, [])
scan_signed (c ∷ s) =
    if c == b'-'
    then scan_number negative s
    else if c == b'+'
    then scan_number pos s
    else scan_number pos (c ∷ s)

unfoldable pub scan_int : Text → Option (Option ℤ × Text)
unfolding scan_signed skip_white
scan_int s = scan_signed (skip_white s)

drop_last : (n : ℕ) (out : Text) → drop_digits ((b'0' + n % 10) ∷ out) ≡ drop_digits out
unfolding drop_digits
drop_last n out = ground arith

drop_digits-digits :
    (fuel n : ℕ) (out r : Text) → drop_digits (digits fuel n out ++ r) ≡ drop_digits (out ++ r)
unfolding digits
drop_digits-digits zero n out r = refl
drop_digits-digits (suc fuel) n out r = elim (Bool-cases (n == 0)) [
  | inl done ↦ rw done refl
  | inr more ↦
      rw more (drop_digits-digits fuel (n / 10) ((b'0' + n % 10) ∷ out) r ∙ drop_last n (out ++ r))
]

drop_digits-decimal :
    (n c : ℕ) (r : Text) → is_digit c ≡ false → drop_digits (decimal n ++ c ∷ r) ≡ c ∷ r
unfolding decimal drop_digits
drop_digits-decimal n c r end = elim (Bool-cases (n == 0)) [
  | inl none_left ↦ rw (none_left, end) refl
  | inr more ↦ rw more (drop_digits-digits n n [] (c ∷ r) ∙ rw end refl)
]

read_digits-end : (n c : ℕ) (r : Text) → is_digit c ≡ false → read_digits (decimal n ++ c ∷ r) 0 ≡ n
unfolding read_digits
read_digits-end n c r end = read_digits-before n (c ∷ r) (rw end refl)

scan_digit :
    (sign : ℕ → ℤ) (c : ℕ) (s : Text)
    → is_digit c ≡ true
    → scan_number sign (c ∷ s)
      ≡ (to_int (sign (read_digits (c ∷ s) 0)) >>= λ z. some (some z, drop_digits (c ∷ s)))
unfolding scan_number
scan_digit sign c s d = rw d refl

scan_int-digit : (c : ℕ) (s : Text) → is_digit c ≡ true → scan_int (c ∷ s) ≡ scan_number pos (c ∷ s)
unfolding scan_int scan_signed skip_white
scan_int-digit c s d =
    let not_minus : (c == b'-') ≡ false = ground (arith, d) in
    let not_plus : (c == b'+') ≡ false = ground (arith, d) in
    rw (skip_white-digit c s d) (rw not_minus (rw not_plus refl))

scan_int-minus : (s : Text) → scan_int (b'-' ∷ s) ≡ scan_number negative s
unfolding scan_int
scan_int-minus s = refl

abbrev scanned : Text → ℤ → Option (Option ℤ × Text)
scanned r z = some (some z, r)

fits : (z : ℤ) (r : Text) → IsInt z → (to_int z >>= scanned r) ≡ scanned r z
unfolding to_int
fits (pos n) r h = ground arith
fits (negsuc n) r h = ground arith

scan_number-decimal :
    (sign : ℕ → ℤ) (n c : ℕ) (r : Text)
    → is_digit c ≡ false
    → scan_number sign (decimal n ++ c ∷ r) ≡ (to_int (sign n) >>= λ z. some (some z, c ∷ r))
scan_number-decimal sign n c r end =
    let (c0, s, e, d) = decimal-start n in
    ap (λ (t : Text). scan_number sign (t ++ c ∷ r)) e
    ∙ scan_digit sign c0 (s ++ c ∷ r) d
    ∙ ap
        (λ (t : Text). to_int (sign (read_digits (t ++ c ∷ r) 0)) >>= λ z.
          some (some z, drop_digits (t ++ c ∷ r)))
        (sym e)
    ∙ rw (read_digits-end n c r end, drop_digits-decimal n c r end) refl

-- `scanf` reads an `int` back from its `%d` and stops behind it.
pub scan_int-show_int :
    (z : ℤ) (c : ℕ) (r : Text)
    → IsInt z
    → is_digit c ≡ false
    → scan_int (show_int z ++ c ∷ r) ≡ some (some z, c ∷ r)
unfolding show_int
scan_int-show_int (pos n) c r h end =
    let (c0, s, e, d) = decimal-start n in
    ap (λ (t : Text). scan_int (t ++ c ∷ r)) e
    ∙ scan_int-digit c0 (s ++ c ∷ r) d
    ∙ ap (λ (t : Text). scan_number pos (t ++ c ∷ r)) (sym e)
    ∙ scan_number-decimal pos n c r end
    ∙ fits (pos n) (c ∷ r) h
scan_int-show_int (negsuc n) c r h end =
    scan_int-minus (decimal (suc n) ++ c ∷ r)
    ∙ scan_number-decimal negative (suc n) c r end
    ∙ fits (negsuc n) (c ∷ r) h
