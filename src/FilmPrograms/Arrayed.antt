-- ===== src/FilmPrograms/Arrayed.antt =====
-- Data_Representation/films.c and films_malloc.c: the films in an array.
use mathlib.Core.List.{cons≢nil}
use computer_science.Prelude.{
  ℕ, zero, suc, ◌-◌, ◌^◌, ◌<◌, ◌≡◌, ◌≢◌, ◌∙◌, refl, ap, arith, inl, inr, Bool, true, List, [], ◌∷◌,
  ◌++◌, map, Option, none, some, ◌>>=◌, if◌then◌else◌,
}
use computer_science.Prelude.Int.{ℤ, pos, negsuc}
use computer_science.Text.{Text, newline}
use computer_science.Text.Decimal.{show_int, IsInt}
use computer_science.Text.Decimal.Scanning.{scan_int, scan_int-show_int}
use computer_science.FilmList.{Film}
use computer_science.FilmPrograms.{
  Line, how_many, first_title, ask_rating, next_title, no_data, header, movie, bye, tsize,
  discard_line, s_gets,
}
use computer_science.FilmPrograms.Reading.{
  first, typed, AllEntries, IsEnd, kept, s_gets-line, s_gets-nil, s_gets-newline,
}
use computer_science.FilmPrograms.Keeping.{asked}
use computer_science.FilmPrograms.Listed.{displayed}

abbrev pub fmax : ℕ
fmax = 5

-- The body of the loop, for a title; `again` is the next round. A rating that `scanf` does not set is
-- shown below, which is undefined.
unfoldable pub array_title :
    (Text → Option (List Line × List Film)) → Option Text → Text → Option (List Line × List Film)
unfolding discard_line scan_int
array_title again none input = some ([], [])
array_title again (some []) input = some ([], [])
array_title again (some (c ∷ title)) input = do
  (scanned, rest) ← scan_int input
  rating ← scanned
  input2 ← discard_line rest
  (lines, films) ← again input2
  some (ask_rating ∷ next_title ∷ lines, record { title = c ∷ title; rating = rating } ∷ films)

-- The loop, with room for so many films: what is printed, and the films.
unfoldable pub gather_array : ℕ → Text → Option (List Line × List Film)
unfolding array_title s_gets
gather_array zero input = some ([], [])
gather_array (suc left) input = do
  (title, rest) ← s_gets tsize input
  array_title (λ input2. gather_array left input2) title rest

unfoldable pub show_array : List Film → List Line
show_array [] = no_data ∷ []
show_array (x ∷ films) = header ∷ map movie (x ∷ films)

-- What both programs do with an array
unfoldable pub run_array : ℕ → Text → Option (List Line)
unfolding gather_array show_array
run_array size input = do
  (lines, films) ← gather_array size input
  some (first_title ∷ lines ++ show_array films ++ bye ∷ [])

-- `main` of films.c
unfoldable pub fixed_main : Text → Option (List Line)
unfolding run_array
fixed_main input = run_array fmax input

-- `getchar()`
unfoldable pub drop_byte : Text → Text
drop_byte [] = []
drop_byte (c ∷ input) = input

-- The array that `malloc` returns, or does not, for a number of films
unfoldable pub run_malloc : (ℕ → Bool) → ℤ → Text → Option (List Line)
unfolding run_array
run_malloc available (pos zero) input = run_array 0 input
run_malloc available (pos (suc n)) input =
    if available (suc n) then run_array (suc n) input else none
run_malloc available (negsuc n) input = run_array 0 input

-- `main` of films_malloc.c; `available` says where `malloc` does not return NULL, which is used unseen.
unfoldable pub malloc_main : (ℕ → Bool) → Text → Option (List Line)
unfolding scan_int run_malloc drop_byte
malloc_main available input = do
  (scanned, rest) ← scan_int input
  lines ← run_malloc available (elim scanned [ none ↦ pos 0 | some n ↦ n ]) (drop_byte rest)
  some (how_many ∷ lines)

-- The films that there is room for
abbrev pub front : ℕ → List Film → List Film
front zero xs = []
front (suc n) [] = []
front (suc n) (x ∷ xs) = x ∷ front n xs

array_title-entry :
    (again : Text → Option (List Line × List Film)) (title : Text) (rating : ℤ) (rest : Text)
    (lines : List Line) (films : List Film)
    → title ≢ []
    → IsInt rating
    → again rest ≡ some (lines, films)
    → array_title again (some title) (show_int rating ++ newline ∷ rest)
      ≡ some (ask_rating ∷ next_title ∷ lines, record { title = title; rating = rating } ∷ films)
unfolding array_title discard_line
array_title-entry again [] rating rest lines films ne int e = absurd (ne refl)
array_title-entry again (c ∷ title) rating rest lines films ne int e =
    rw (scan_int-show_int rating newline rest int refl) (rw e refl)

-- A title that is not empty is not cut to an empty one.
first-some : (t : Text) → t ≢ [] → first (tsize - 1) t ≢ []
first-some [] ne e = ne refl
first-some (c ∷ t) ne e = cons≢nil e

array_title-end :
    (again : Text → Option (List Line × List Film)) (rest : Text)
    → (array_title again none rest ≡ some ([], []))
      × (array_title again (some []) rest ≡ some ([], []))
unfolding array_title
array_title-end again rest = (refl, refl)

gather_array-front :
    (n : ℕ) (xs : List Film) (end : Text)
    → AllEntries xs
    → IsEnd end
    → gather_array n (typed xs end) ≡ some (asked (front n (map kept xs)) [], front n (map kept xs))
unfolding gather_array
gather_array-front zero xs end all is_end = refl
gather_array-front (suc n) [] end all (inl e) =
    rw (ap (s_gets tsize) e ∙ s_gets-nil) (array_title-end (gather_array n) []).0
gather_array-front (suc n) [] end all (inr (rest, e)) =
    rw (ap (s_gets tsize) e ∙ s_gets-newline rest) (array_title-end (gather_array n) rest).1
gather_array-front (suc n) (x ∷ xs) end ((some_title, plain, int), all) is_end =
    rw (s_gets-line x.title (show_int x.rating ++ newline ∷ typed xs end) some_title plain) (
      array_title-entry (gather_array n) (first (tsize - 1) x.title) x.rating (typed xs end) _ _
        (first-some x.title some_title) int (gather_array-front n xs end all is_end))

show_array-displayed : (xs : List Film) → show_array xs ≡ displayed xs
unfolding show_array
show_array-displayed [] = refl
show_array-displayed (x ∷ xs) = refl

-- What the programs print for an array of `n` films
abbrev pub array_lines : ℕ → List Film → List Line
array_lines n xs =
    first_title ∷ asked (front n (map kept xs)) [] ++ displayed (front n (map kept xs)) ++ bye ∷ []

run_array-lines :
    (n : ℕ) (xs : List Film) (end : Text)
    → AllEntries xs
    → IsEnd end
    → run_array n (typed xs end) ≡ some (array_lines n xs)
unfolding run_array
run_array-lines n xs end all is_end =
    rw (gather_array-front n xs end all is_end)
      (rw (show_array-displayed (front n (map kept xs))) refl)

run_malloc-lines :
    (available : ℕ → Bool) (n : ℕ) (xs : List Film) (end : Text)
    → (0 < n → available n ≡ true)
    → AllEntries xs
    → IsEnd end
    → run_malloc available (pos n) (typed xs end) ≡ some (array_lines n xs)
unfolding run_malloc
run_malloc-lines available zero xs end room all is_end = run_array-lines 0 xs end all is_end
run_malloc-lines available (suc n) xs end room all is_end =
    rw (room (omega arith)) (run_array-lines (suc n) xs end all is_end)

-- For titles and ratings on lines of their own, the titles not empty and the ratings of an `int`, and then
-- the end of the input or an empty line, films.c keeps and shows the first five films, each with the first
-- 44 bytes of its title; and films_malloc.c, where it is told a number in front and has memory for so
-- many, keeps and shows that many.
pub array_mains_lem :
    (available : ℕ → Bool) (n : ℕ) (xs : List Film) (end : Text)
    → AllEntries xs
    → IsEnd end
    → n < 2 ^ 31
    → (0 < n → available n ≡ true)
    → (fixed_main (typed xs end) ≡ some (array_lines fmax xs))
      × (malloc_main available (show_int (pos n) ++ newline ∷ typed xs end)
          ≡ some (how_many ∷ array_lines n xs))
unfolding fixed_main malloc_main drop_byte
array_mains_lem available n xs end all is_end lt room = (
  run_array-lines fmax xs end all is_end,
  rw (scan_int-show_int (pos n) newline (typed xs end) lt refl)
      (rw (run_malloc-lines available n xs end room all is_end) refl),
)
