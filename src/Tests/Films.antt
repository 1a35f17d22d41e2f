-- ===== src/Tests/Films.antt =====
-- list.c: one film at the address 7, on a heap whose next free address is 9, or that is full.
use computer_science.Prelude.{ℕ, ◌≡◌, ◌≢◌, refl, arith, [], ◌∷◌, Option, none, some, Returns}
use computer_science.Prelude.Int.{pos}
use computer_science.Text.{bytes}
use computer_science.FilmList.{Film, Node, Heap, Allocator, null, put, add_item}
use computer_science.FilmList.Segments.{Chain}
use computer_science.FilmList.Operations.{Added, add_item-Added}

abbrev alien : Film
alien = record { title = bytes "Alien"; rating = pos 9 }

abbrev heat : Film
heat = record { title = bytes "Heat"; rating = pos 8 }

abbrev one_film : Heap
one_film = put (λ p. none) 7 (some (record { item = alien; next = null }))

one_film-Chain : Chain one_film 7 (7 ∷ []) (alien ∷ [])
one_film-Chain = (null, refl, ground arith, refl, tt, refl)

-- It hands out the address 9 as long as no node is there.
abbrev nine_if_free : Option Node → ℕ
nine_if_free none = 9
nine_if_free (some n) = null

nine_if_free-none :
    (h : Heap) (o : Option Node) → h 9 ≡ o → nine_if_free o ≢ null → h (nine_if_free o) ≡ none
nine_if_free-none h none e r = e
nine_if_free-none h (some n) e r = absurd (r refl)

abbrev small : Allocator
small = record { malloc = λ h. nine_if_free (h 9); fresh = λ h r. nine_if_free-none h (h 9) refl r }

add_item-Added_example :
    Returns (Added small heat 7 one_film (7 ∷ []) (alien ∷ [])) (add_item small 2 heat 7 one_film)
add_item-Added_example =
    add_item-Added small 2 heat 7 one_film (7 ∷ []) (alien ∷ []) (omega arith) one_film-Chain
