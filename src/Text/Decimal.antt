-- ===== src/Text/Decimal.antt =====
-- Numbers in text: `%d` of `sprintf`, and `atoi`, by their documented results.
pub mod Scanning
use computer_science.Prelude.{
  ℕ, zero, suc, ◌+◌, ◌-◌, ◌*◌, ◌/◌, ◌%◌, ◌^◌, ◌≤◌, ◌<◌, ◌≡◌, ◌≢◌, ◌∙◌, refl, sym, ap, arith, inl,
  inr, Bool, true, false, ◌&&◌, ◌||◌, [], ◌∷◌, ◌++◌, Option, none, some, ◌==◌, ltb, leb,
  if◌then◌else◌, Bool-cases, length,
}
use computer_science.Prelude.Int.{ℤ, pos, negsuc}
use computer_science.Text.{Text, lacks}

-- The digits of `n` before `out`; the fuel is at least `n`.
unfoldable pub digits : ℕ → ℕ → Text → Text
digits zero n out = out
digits (suc fuel) n out =
    let rest = digits fuel (n / 10) ((b'0' + n % 10) ∷ out) in if n == 0 then out else rest

unfoldable pub decimal : ℕ → Text
unfolding digits
decimal n = if n == 0 then b'0' ∷ [] else digits n n []

-- `%d`
unfoldable pub show_int : ℤ → Text
unfolding decimal
show_int (pos n) = decimal n
show_int (negsuc n) = b'-' ∷ decimal (suc n)

abbrev pub is_digit : ℕ → Bool
is_digit c = leb b'0' c && leb c b'9'

-- The number that the digits at the start of a text stand for, behind those that stand for `n`.
unfoldable pub read_digits : Text → ℕ → ℕ
read_digits [] n = n
read_digits (c ∷ s) n =
    let rest = read_digits s (n * 10 + (c - b'0')) in if is_digit c then rest else n

-- The integer as an `int`; an `atoi` of another number is undefined.
unfoldable pub to_int : ℤ → Option ℤ
to_int (pos n) = if ltb n (2 ^ 31) then some (pos n) else none
to_int (negsuc n) = if ltb n (2 ^ 31) then some (negsuc n) else none

abbrev pub negative : ℕ → ℤ
negative zero = pos 0
negative (suc n) = negsuc n

abbrev pub is_white : ℕ → Bool
is_white c = c == b' ' || (leb 9 c && leb c 13)

unfoldable pub skip_white : Text → Text
skip_white [] = []
skip_white (c ∷ s) = let rest = skip_white s in if is_white c then rest else c ∷ s

unfoldable pub read_signed : Text → Option ℤ
unfolding to_int read_digits
read_signed [] = to_int (pos 0)
read_signed (c ∷ s) =
    if c == b'-'
    then to_int (negative (read_digits s 0))
    else if c == b'+'
    then to_int (pos (read_digits s 0))
    else to_int (pos (read_digits (c ∷ s) 0))

unfoldable pub atoi : Text → Option ℤ
unfolding skip_white read_signed
atoi s = read_signed (skip_white s)

digits-zero : (fuel : ℕ) (out : Text) → digits fuel 0 out ≡ out
unfolding digits
digits-zero zero out = refl
digits-zero (suc fuel) out = refl

read_last : (n : ℕ) (out : Text) → read_digits ((b'0' + n % 10) ∷ out) (n / 10) ≡ read_digits out n
unfolding read_digits
read_last n out = ground arith

pub read_digits-digits :
    (fuel n : ℕ) (out : Text) → n ≤ fuel → read_digits (digits fuel n out) 0 ≡ read_digits out n
unfolding digits
read_digits-digits zero n out le = let none_left : n ≡ 0 = omega arith in rw none_left refl
read_digits-digits (suc fuel) n out le = elim (Bool-cases (n == 0)) [
  | inl done ↦ let none_left : n ≡ 0 = ground (arith, done) in rw (done, none_left) refl
  | inr more ↦ rw more (
      read_digits-digits fuel (n / 10) ((b'0' + n % 10) ∷ out) (ground (arith, more))
      ∙ read_last n out)
]

-- Nothing but digits behind what they are written before.
lacks-digits :
    (c fuel n : ℕ) (out : Text) → c < b'0' → lacks c out ≡ true → lacks c (digits fuel n out) ≡ true
unfolding digits lacks
lacks-digits c zero n out lt h = h
lacks-digits c (suc fuel) n out lt h = elim (Bool-cases (n == 0)) [
  | inl done ↦ rw done h
  | inr more ↦ rw more (lacks-digits c fuel (n / 10) ((b'0' + n % 10) ∷ out) lt (ground arith))
]

pub lacks-decimal : (c n : ℕ) → c < b'0' → lacks c (decimal n) ≡ true
unfolding decimal lacks
lacks-decimal c n lt = ground (arith, lacks-digits c n n [] lt refl)

-- A number that is not 0 starts with a digit.
digits-start :
    (fuel n : ℕ) (out : Text)
    → n ≢ 0
    → n ≤ fuel
    → (c : ℕ) × (s : Text) × (digits fuel n out ≡ c ∷ s) × (is_digit c ≡ true)
unfolding digits
digits-start zero n out ne le = absurd (ne (omega arith))
digits-start (suc fuel) n out ne le = elim (Bool-cases (n / 10 == 0)) [
  | inl last ↦
      let none_left : n / 10 ≡ 0 = ground (arith, last) in
      let more : (n == 0) ≡ false = ground (arith, ne) in
      (
        b'0' + n % 10,
        out,
        rw more (rw none_left (digits-zero fuel ((b'0' + n % 10) ∷ out))),
        ground arith,
      )
  | inr more_digits ↦
      let (c, s, e, d) =
        digits-start fuel (n / 10) ((b'0' + n % 10) ∷ out) (λ z. ground (arith, z, more_digits))
          (ground (arith, ne)) in
      let more : (n == 0) ≡ false = ground (arith, ne) in (c, s, rw more e, d)
]

pub decimal-start : (n : ℕ) → (c : ℕ) × (s : Text) × (decimal n ≡ c ∷ s) × (is_digit c ≡ true)
unfolding decimal
decimal-start n = elim (Bool-cases (n == 0)) [
  | inl none_left ↦ (b'0', [], rw none_left refl, refl)
  | inr more ↦
      let (c, s, e, d) = digits-start n n [] (λ z. ground (arith, z, more)) (omega arith) in
      (c, s, rw more e, d)
]

pub read_digits-decimal : (n : ℕ) → read_digits (decimal n) 0 ≡ n
unfolding decimal read_digits
read_digits-decimal n = elim (Bool-cases (n == 0)) [
  | inl none_left ↦ rw none_left (ground (arith, none_left))
  | inr more ↦ rw more (read_digits-digits n n [] (omega arith))
]

digits-append : (fuel n : ℕ) (out r : Text) → digits fuel n out ++ r ≡ digits fuel n (out ++ r)
unfolding digits
digits-append zero n out r = refl
digits-append (suc fuel) n out r = elim (Bool-cases (n == 0)) [
  | inl done ↦ rw done refl
  | inr more ↦ rw more (digits-append fuel (n / 10) ((b'0' + n % 10) ∷ out) r)
]

-- Digits are read up to what is none.
pub read_digits-before :
    (n : ℕ) (r : Text) → read_digits r n ≡ n → read_digits (decimal n ++ r) 0 ≡ n
unfolding decimal read_digits
read_digits-before n r h = elim (Bool-cases (n == 0)) [
  | inl none_left ↦ rw none_left (ground (arith, none_left, h))
  | inr more ↦ rw more (
      ap (λ t. read_digits t 0) (digits-append n n [] r)
      ∙ read_digits-digits n n r (omega arith)
      ∙ h)
]

-- What is an `int`
abbrev pub IsInt : ℤ → Type 0
IsInt (pos n) = n < 2 ^ 31
IsInt (negsuc n) = n < 2 ^ 31

skip_white-digit : (c : ℕ) (s : Text) → is_digit c ≡ true → skip_white (c ∷ s) ≡ c ∷ s
unfolding skip_white
skip_white-digit c s d = ground arith

read_signed-digit :
    (c : ℕ) (s : Text)
    → is_digit c ≡ true
    → read_signed (c ∷ s) ≡ to_int (pos (read_digits (c ∷ s) 0))
unfolding read_signed
read_signed-digit c s d = ground arith

atoi-decimal : (n : ℕ) → n < 2 ^ 31 → atoi (decimal n) ≡ some (pos n)
unfolding atoi to_int
atoi-decimal n h =
    let (c, s, e, d) = decimal-start n in
    ap atoi e
    ∙ rw (skip_white-digit c s d) (read_signed-digit c s d)
    ∙ ap (λ t. to_int (pos (read_digits t 0))) (sym e)
    ∙ rw (read_digits-decimal n) (ground arith)

atoi-negative : (n : ℕ) → n < 2 ^ 31 → atoi (b'-' ∷ decimal (suc n)) ≡ some (negsuc n)
unfolding atoi to_int
atoi-negative n h = ap (λ m. to_int (negative m)) (read_digits-decimal (suc n)) ∙ ground arith

-- `atoi` reads every `int` back from its `%d`.
pub atoi-show_int : (z : ℤ) → IsInt z → atoi (show_int z) ≡ some z
unfolding show_int
atoi-show_int (pos n) h = atoi-decimal n h
atoi-show_int (negsuc n) h = atoi-negative n h

tenth : (k n : ℕ) → n < 10 ^ suc k → n / 10 < 10 ^ k
tenth k n lt = omega arith

length-digits :
    (k fuel n : ℕ) (out : Text) → n < 10 ^ k → length (digits fuel n out) ≤ k + length out
unfolding digits
length-digits k zero n out lt = omega arith
length-digits zero (suc fuel) n out lt =
    let none_left : (n == 0) ≡ true = ground (arith, lt) in rw none_left (omega arith)
length-digits (suc k) (suc fuel) n out lt = elim (Bool-cases (n == 0)) [
  | inl done ↦ rw done (omega arith)
  | inr more ↦
      rw more (omega (arith, length-digits k fuel (n / 10) ((b'0' + n % 10) ∷ out) (tenth k n lt)))
]

-- An `int` takes at most eleven characters.
pub length-show_int : (z : ℤ) → IsInt z → length (show_int z) ≤ 11
unfolding show_int decimal
length-show_int (pos n) h = elim (Bool-cases (n == 0)) [
  | inl none_left ↦ rw none_left (omega arith)
  | inr more ↦ rw more (omega (arith, length-digits 10 n n [] (omega (arith, h))))
]
length-show_int (negsuc n) h =
    ground (arith, length-digits 10 (suc n) (suc n) [] (omega (arith, h)))

pub lacks-show_int : (c : ℕ) (z : ℤ) → c < b'-' → lacks c (show_int z) ≡ true
unfolding show_int lacks
lacks-show_int c (pos n) lt = lacks-decimal c n (omega arith)
lacks-show_int c (negsuc n) lt = ground (arith, lacks-decimal c (suc n) (omega arith))
