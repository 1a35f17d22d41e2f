-- ===== src/FilmPrograms/Listed.antt =====
-- ADT/films.c: what it shows of what is typed.
use computer_science.Prelude.{ℕ, suc, ◌%◌, ◌^◌, ◌≡◌, ◌⊎◌, List, [], ◌∷◌, ◌++◌, map, none, length}
use computer_science.Text.{Text}
use computer_science.FilmList.{Film, Heap, Allocator, null}
use computer_science.FilmPrograms.{
  Line, first_title, no_memory, no_data, header, movie, entered, bye,
}
use computer_science.FilmPrograms.Reading.{kept}
use computer_science.FilmPrograms.Keeping.{Told}

-- What is displayed
abbrev pub displayed : List Film → List Line
displayed [] = no_data ∷ []
displayed (x ∷ xs) = header ∷ map movie (x ∷ xs)

-- What the program prints, and the heap that it leaves: without memory at its start a message; and
-- otherwise the prompts, the films that are kept, and their number, with nothing left allocated.
abbrev pub Shown : (ℕ → Allocator) → Heap → List Film → List Line × Heap → Type 0
Shown calls h xs (lines, h2) =
    (((calls 0).malloc h ≡ null) × (lines ≡ no_memory ∷ []) × (h2 ≡ h))
    ⊎ ((stored : List Film) × (left : List Film) × (told : List Line) × (h1 : Heap) × (map kept xs
          ≡ stored ++ left)
        × Told (λ i. calls (suc i)) h1 stored left told
        × (lines
            ≡ first_title ∷ told ++ displayed stored ++ entered (length stored % 2 ^ 32) ∷ bye ∷ [])
        × ((q : ℕ) → h2 q ≡ none))
