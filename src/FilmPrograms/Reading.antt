-- ===== src/FilmPrograms/Reading.antt =====
-- What a user types, and how the programs read it.
use computer_science.Prelude.{
  ℕ, zero, suc, ◌-◌, ◌≡◌, ◌≢◌, ◌⊎◌, ◌∙◌, refl, ap, arith, true, false, List, [], ◌∷◌, ◌++◌, Option,
  none, some, ◌==◌, ◌>>=◌,
}
use computer_science.Text.{Text, newline, lacks, split_at}
use computer_science.Text.Decimal.{show_int, IsInt}
use computer_science.FilmList.{Film}
use computer_science.FilmPrograms.{
  tsize, read_bytes, fgets, discard_line, cut_line, finish_line, s_gets,
}

-- The first bytes of a title
abbrev pub first : ℕ → Text → Text
first zero t = []
first (suc n) [] = []
first (suc n) (c ∷ t) = c ∷ first n t

-- A title and a rating, each on a line
abbrev pub typed : List Film → Text → Text
typed [] end = end
typed (x ∷ xs) end = x.title ++ newline ∷ (show_int x.rating ++ newline ∷ typed xs end)

abbrev pub IsEntry : Film → Type 0
IsEntry x = (x.title ≢ []) × (lacks newline x.title ≡ true) × IsInt x.rating

abbrev pub AllEntries : List Film → Type 0
AllEntries [] = Unit
AllEntries (x ∷ xs) = IsEntry x × AllEntries xs

-- The end of the input, or an empty line
abbrev pub IsEnd : Text → Type 0
IsEnd end = (end ≡ []) ⊎ ((rest : Text) × (end ≡ newline ∷ rest))

-- A film as it is kept, with 44 bytes of its title
abbrev pub kept : Film → Film
kept x = record { title = first (tsize - 1) x.title; rating = x.rating }

discard_line-append :
    (t r : Text) → lacks newline t ≡ true → discard_line (t ++ newline ∷ r) ≡ some r
unfolding discard_line lacks
discard_line-append [] r plain = refl
discard_line-append (c ∷ t) r plain = ground (arith, discard_line-append t r)

abbrev cut_rest : Text → Option Text → Option (Text × Text)
cut_rest st o = o >>= λ rest. some (st, rest)

abbrev grown : ℕ → Option (Text × Text) → Option (Text × Text)
grown c none = none
grown c (some (t, r)) = some (c ∷ t, r)

rest_grown : (c : ℕ) (st : Text) (o : Option Text) → cut_rest (c ∷ st) o ≡ grown c (cut_rest st o)
rest_grown c st none = refl
rest_grown c st (some r) = refl

cut_line-grown :
    (c : ℕ) (st input : Text) (found : Option (Text × Text))
    → cut_line (c ∷ st) input (elim found [ none ↦ none | some (a, b) ↦ some (c ∷ a, b) ])
      ≡ grown c (cut_line st input found)
unfolding cut_line
cut_line-grown c st input none = rest_grown c st (discard_line input)
cut_line-grown c st input (some (a, b)) = refl

finish_line-cons :
    (c : ℕ) (st input : Text)
    → (c == newline) ≡ false
    → finish_line (c ∷ st, input) ≡ grown c (finish_line (st, input))
unfolding finish_line split_at
finish_line-cons c st input other = rw other (cut_line-grown c st input (split_at newline st))

finish_line-read_bytes :
    (n : ℕ) (t r : Text)
    → lacks newline t ≡ true
    → finish_line (read_bytes n (t ++ newline ∷ r)) ≡ some (first n t, r)
unfolding read_bytes lacks finish_line cut_line split_at
finish_line-read_bytes zero t r plain = rw (discard_line-append t r plain) refl
finish_line-read_bytes (suc n) [] r plain = refl
finish_line-read_bytes (suc n) (c ∷ t) r plain =
    let other : (c == newline) ≡ false = ground (arith, plain) in
    let rest : lacks newline t ≡ true = ground (arith, plain) in
    let got = read_bytes n (t ++ newline ∷ r) in
    rw other
      (finish_line-cons c got.0 got.1 other ∙ ap (grown c) (finish_line-read_bytes n t r rest))

-- A line is read with its first 44 bytes, and all of it is taken off the input.
pub s_gets-line :
    (t r : Text)
    → t ≢ []
    → lacks newline t ≡ true
    → s_gets tsize (t ++ newline ∷ r) ≡ some (some (first (tsize - 1) t), r)
unfolding s_gets fgets
s_gets-line [] r ne plain = absurd (ne refl)
s_gets-line (c ∷ t) r ne plain = rw (finish_line-read_bytes (tsize - 1) (c ∷ t) r plain) refl

pub s_gets-nil : s_gets tsize [] ≡ some (none, [])
unfolding s_gets fgets
s_gets-nil = refl

pub s_gets-newline : (r : Text) → s_gets tsize (newline ∷ r) ≡ some (some [], r)
unfolding s_gets fgets finish_line read_bytes split_at cut_line
s_gets-newline r = refl

pub first-cons : (t : Text) → t ≢ [] → (c : ℕ) × (s : Text) × (first (tsize - 1) t ≡ c ∷ s)
first-cons [] ne = absurd (ne refl)
first-cons (c ∷ t) ne = (c, first (tsize - 2) t, refl)
