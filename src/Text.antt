-- ===== src/Text.antt =====
-- C strings: the list of the bytes before the NUL, and the functions of string.h that the programs
-- call, by their documented results.
pub mod Decimal
use Prim.Native.Char.{code}
use Prim.Native.String.{String}
use computer_science.Prelude.{
  ℕ, Bool, true, false, ◌&&◌, ◌||◌, List, [], ◌∷◌, ◌++◌, Option, none, some, ◌==◌, if◌then◌else◌,
  ◌≡◌, refl, ap, inl, inr, arith, Bool-cases, ==_iff,
}

abbrev pub Text : Type 0
Text = List ℕ

-- The bytes of an ASCII literal.
abbrev pub bytes : String → Text
bytes String.[] = []
bytes (String.◌∷◌ c s) = code c ∷ bytes s

abbrev pub space : ℕ
space = b' '

abbrev pub newline : ℕ
newline = 10

-- `strcmp(s, t) == 0`
unfoldable pub same_text : Text → Text → Bool
same_text [] [] = true
same_text (x ∷ s) (y ∷ t) = x == y && same_text s t
same_text s t = false

-- `strchr(s, c)`: what stands before the first `c`, and what behind it.
unfoldable pub split_at : ℕ → Text → Option (Text × Text)
split_at c [] = none
split_at c (x ∷ s) =
    let rest = split_at c s in
    if x == c then some ([], s) else elim rest [ none ↦ none | some (a, b) ↦ some (x ∷ a, b) ]

unfoldable pub starts_with : Text → Text → Bool
starts_with [] s = true
starts_with (c ∷ p) [] = false
starts_with (c ∷ p) (x ∷ s) = c == x && starts_with p s

-- `strstr(s, p) != NULL`
unfoldable pub contains : Text → Text → Bool
unfolding starts_with
contains p [] = starts_with p []
contains p (x ∷ s) = starts_with p (x ∷ s) || contains p s

-- Every byte of the text is another one than `c`.
unfoldable pub lacks : ℕ → Text → Bool
lacks c [] = true
lacks c (x ∷ s) = (if x == c then false else true) && lacks c s

-- The split at a byte is at its first occurrence.
pub split_at-append :
    (c : ℕ) (s t : Text) → lacks c s ≡ true → split_at c (s ++ c ∷ t) ≡ some (s, t)
unfolding split_at lacks
split_at-append c [] t h = ground arith
split_at-append c (x ∷ s) t h = ground (arith, split_at-append c s t)

pub split_at-nil : (c : ℕ) → split_at c [] ≡ none
unfolding split_at
split_at-nil c = refl

pub split_at-none : (c : ℕ) (s : Text) → lacks c s ≡ true → split_at c s ≡ none
unfolding split_at lacks
split_at-none c [] h = refl
split_at-none c (x ∷ s) h = ground (arith, split_at-none c s)

-- What `split_at` returns makes up the text, and its first part lacks the byte.
abbrev pub SplitOf : ℕ → Text → Option (Text × Text) → Type 0
SplitOf c s none = lacks c s ≡ true
SplitOf c s (some (a, b)) = (s ≡ a ++ c ∷ b) × (lacks c a ≡ true)

grow-SplitOf :
    (c x : ℕ) (s : Text) (rest : Option (Text × Text))
    → (x == c) ≡ false
    → SplitOf c s rest
    → SplitOf c (x ∷ s) (elim rest [ none ↦ none | some (a, b) ↦ some (x ∷ a, b) ])
unfolding lacks
grow-SplitOf c x s none ne h = rw ne h
grow-SplitOf c x s (some (a, b)) ne h = (ap (◌∷◌ x) h.0, rw ne h.1)

pub split_at-SplitOf : (c : ℕ) (s : Text) → SplitOf c s (split_at c s)
unfolding split_at lacks
split_at-SplitOf c [] = refl
split_at-SplitOf c (x ∷ s) = elim (Bool-cases (x == c)) [
  | inl here ↦ rw here (ap (λ (y : ℕ). y ∷ s) ((==_iff x c).0 here), refl)
  | inr away ↦ rw away (grow-SplitOf c x s (split_at c s) away (split_at-SplitOf c s))
]
