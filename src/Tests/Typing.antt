-- ===== src/Tests/Typing.antt =====
-- The film programs on two films.
use computer_science.Prelude.{
  ℕ, ◌≡◌, ◌≢◌, refl, arith, true, List, [], ◌∷◌, ◌++◌, Option, none, some, inr, ◌==◌, if◌then◌else◌,
}
use mathlib.Core.List.{cons≢nil}
use computer_science.Prelude.Int.{pos, negsuc}
use computer_science.Text.{Text, bytes, lacks, newline}
use computer_science.Text.Decimal.{show_int}
use computer_science.FilmList.{Film, Heap, Node, Allocator, null}
use computer_science.FilmPrograms.{how_many}
use computer_science.FilmPrograms.Reading.{typed, AllEntries}
use computer_science.FilmPrograms.Arrayed.{
  fmax, fixed_main, malloc_main, array_lines, array_mains_lem,
}

abbrev films : List Film
films =
    record { title = bytes "Alien"; rating = pos 9 }
    ∷ record { title = bytes "Heat"; rating = negsuc 0 }
    ∷ []

cons-some : (c : ℕ) (t : Text) → c ∷ t ≢ []
cons-some c t e = cons≢nil e

films-AllEntries : AllEntries films
unfolding lacks
films-AllEntries = ((cons-some _ _, refl, omega arith), ((cons-some _ _, refl, omega arith), tt))

-- It hands out the address `p` as long as no node is there.
abbrev if_free : ℕ → Option Node → ℕ
if_free p none = p
if_free p (some n) = null

if_free-none :
    (h : Heap) (p : ℕ) (o : Option Node) → h p ≡ o → if_free p o ≢ null → h (if_free p o) ≡ none
if_free-none h p none e r = e
if_free-none h p (some n) e r = absurd (r refl)

abbrev one_node : ℕ → Allocator
one_node p = record { malloc = λ h. if_free p (h p); fresh = λ h r. if_free-none h p (h p) refl r }

-- There is memory for the first film, and for the test behind it, but then not for the second film.
abbrev scarce : ℕ → Allocator
scarce call = if call == 2 then one_node 10 else one_node 9

array_mains_lem_example :
    (fixed_main (typed films (newline ∷ [])) ≡ some (array_lines fmax films))
    × (malloc_main (λ n. true) (show_int (pos 1) ++ newline ∷ typed films (newline ∷ []))
        ≡ some (how_many ∷ array_lines 1 films))
array_mains_lem_example =
    array_mains_lem (λ n. true) 1 films (newline ∷ []) films-AllEntries (inr ([], refl))
      (omega arith) (λ _. refl)
