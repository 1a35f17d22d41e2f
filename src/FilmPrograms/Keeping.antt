-- ===== src/FilmPrograms/Keeping.antt =====
-- The loop of ADT/films.c: which films it keeps, and what it says of them.
use computer_science.Prelude.{
  ℕ, zero, suc, ◌+◌, ◌-◌, ◌<◌, ◌≡◌, ◌⊎◌, ◌∙◌, refl, sym, ap, arith, inl, inr, Bool, List, [], ◌∷◌,
  ◌++◌, append_assoc, append-nil, map, Option, none, some, ◌==◌, ==_iff, Bool-cases, length,
  length-append, Returns, Returns-bind,
}
use mathlib.Core.Path.{subst}
use computer_science.Prelude.Int.{ℤ}
use computer_science.Text.{Text, newline}
use computer_science.Text.Decimal.{show_int, IsInt}
use computer_science.Text.Decimal.Scanning.{scan_int-show_int}
use computer_science.FilmList.{Film, Heap, Allocator, null, list_is_full, add_item}
use computer_science.FilmList.Segments.{Distinct, Chain}
use computer_science.FilmList.Operations.{Added, add_item-Added}
use computer_science.FilmPrograms.{
  Line, ask_rating, next_title, now_full, problem, tsize, discard_line, s_gets, Gathered, added,
  store_film, gather_title, later, gather,
}
use computer_science.FilmPrograms.Reading.{
  first, typed, AllEntries, IsEnd, kept, s_gets-line, s_gets-nil, s_gets-newline, first-cons,
}

-- No other node is allocated.
abbrev pub Only : Heap → List ℕ → Type 0
Only h ps = (q : ℕ) → Distinct q ps → h q ≡ none

-- The prompts for the films that are kept, and what is said behind them
abbrev pub asked : List Film → List Line → List Line
asked [] end = end
asked (x ∷ xs) end = ask_rating ∷ next_title ∷ asked xs end

-- The number of calls of `malloc` that films take.
abbrev pub calls_for : List Film → ℕ
calls_for [] = 0
calls_for (x ∷ xs) = suc (suc (calls_for xs))

-- What the program says while it reads: either every film is kept, or `malloc` has returned NULL, when it
-- was called for the next film, or for the test behind the last one.
abbrev pub Told : (ℕ → Allocator) → Heap → (stored left : List Film) → List Line → Type 0
Told calls h stored left lines =
    ((left ≡ []) × (lines ≡ asked stored []))
    ⊎ (((calls (calls_for stored)).malloc h ≡ null)
        × (lines ≡ asked stored (ask_rating ∷ problem ∷ [])))
    ⊎ ((before : List Film) × (last : Film) × (stored ≡ before ++ last ∷ [])
        × ((calls (suc (calls_for before))).malloc h ≡ null)
        × (lines ≡ asked before (ask_rating ∷ now_full ∷ [])))

-- The result of the loop, from a list of the films `ys`: it keeps the first ones of `xs`.
abbrev pub Keeps : (ℕ → Allocator) → (ys xs : List Film) → Gathered → Type 0
Keeps calls ys xs (lines, movies, h) =
    (stored : List Film) × (left : List Film) × (ps : List ℕ) × (map kept xs ≡ stored ++ left)
    × Chain h movies ps (ys ++ stored)
    × Only h ps
    × Told calls h stored left lines

Told-next :
    (calls : ℕ → Allocator) (h : Heap) (x : Film) (stored left : List Film) (lines : List Line)
    → Told (later calls) h stored left lines
    → Told calls h (x ∷ stored) left (ask_rating ∷ next_title ∷ lines)
Told-next calls h x stored left lines (inl (e, l)) =
    inl (e, ap (λ (t : List Line). ask_rating ∷ next_title ∷ t) l)
Told-next calls h x stored left lines (inr (inl (full, l))) =
    inr (inl (full, ap (λ (t : List Line). ask_rating ∷ next_title ∷ t) l))
Told-next calls h x stored left lines (inr (inr (before, last, e, full, l))) = inr (
    inr
      (x ∷ before, last, ap (◌∷◌ x) e, full, ap (λ (t : List Line). ask_rating ∷ next_title ∷ t) l))

Keeps-next :
    (calls : ℕ → Allocator) (ys : List Film) (x : Film) (xs : List Film) (lines : List Line)
    (movies : ℕ) (h : Heap)
    → Keeps (later calls) (ys ++ kept x ∷ []) xs (lines, movies, h)
    → Keeps calls ys (x ∷ xs) (ask_rating ∷ next_title ∷ lines, movies, h)
Keeps-next calls ys x xs lines movies h (stored, left, ps, e, chain, only, told) = (
  kept x ∷ stored,
  left,
  ps,
  ap (◌∷◌ (kept x)) e,
  subst (λ (zs : List Film). Chain h movies ps zs) (append_assoc ys (kept x ∷ []) stored) chain,
  only,
  Told-next calls h (kept x) stored left lines told,
)

gather_title-some :
    (calls : ℕ → Allocator) (passes : ℕ) (again : Text → Option ℤ → ℕ → Heap → Option Gathered)
    (t input : Text) (rating : Option ℤ) (movies : ℕ) (h : Heap) (c : ℕ) (s : Text)
    → t ≡ c ∷ s
    → gather_title calls passes again (some t) input rating movies h
      ≡ store_film calls passes again t input rating movies h
unfolding gather_title
gather_title-some calls passes again t input rating movies h c s e =
    ap (λ (u : Text). gather_title calls passes again (some u) input rating movies h) e
    ∙ ap (λ (u : Text). store_film calls passes again u input rating movies h) (sym e)

Distinct-rotate : (q : ℕ) (ps : List ℕ) (r : ℕ) → Distinct q (ps ++ r ∷ []) → Distinct q (r ∷ ps)
Distinct-rotate q [] r d = d
Distinct-rotate q (p ∷ ps) r (ne, d) =
    let (away, rest) = Distinct-rotate q ps r d in (away, (ne, rest))

-- The next round, on a list with one more film.
abbrev Goes :
    (ℕ → Allocator)
    → (Text → Option ℤ → ℕ → Heap → Option Gathered)
    → (ys xs : List Film) → Film
    → ℕ
    → Text
    → Type 0
Goes calls again ys xs x size rest =
    (movies : ℕ) (ps : List ℕ) (h : Heap)
    → length ps ≡ size + 1
    → Chain h movies ps (ys ++ kept x ∷ [])
    → Only h ps
    → Returns (Keeps (later calls) (ys ++ kept x ∷ []) xs) (again rest (some x.rating) movies h)

last-kept :
    (calls : ℕ → Allocator) (ys xs : List Film) (x : Film) (movies : ℕ) (h : Heap) (ps : List ℕ)
    → Chain h movies ps (ys ++ kept x ∷ [])
    → Only h ps
    → (calls 1).malloc h ≡ null
    → Keeps calls ys (x ∷ xs) (ask_rating ∷ now_full ∷ [], movies, h)
last-kept calls ys xs x movies h ps chain only full =
    (kept x ∷ [], map kept xs, ps, refl, chain, only, inr (inr ([], kept x, refl, full, refl)))

none-kept :
    (calls : ℕ → Allocator) (ys xs : List Film) (x : Film) (movies : ℕ) (h : Heap) (ps : List ℕ)
    → Chain h movies ps ys
    → Only h ps
    → (calls 0).malloc h ≡ null
    → Keeps calls ys (x ∷ xs) (ask_rating ∷ problem ∷ [], movies, h)
none-kept calls ys xs x movies h ps chain only full = (
  [],
  kept x ∷ map kept xs,
  ps,
  refl,
  subst (λ (zs : List Film). Chain h movies ps zs) (sym (append-nil ys)) chain,
  only,
  inr (inl (full, refl)),
)

added-Keeps :
    (calls : ℕ → Allocator) (again : Text → Option ℤ → ℕ → Heap → Option Gathered)
    (ys xs : List Film) (x : Film) (rest : Text) (movies : ℕ) (h : Heap) (ps : List ℕ)
    → Chain h movies ps ys
    → Only h ps
    → Goes calls again ys xs x (length ps) rest
    → (r : Bool × ℕ × Heap) → Added (calls 0) (kept x) movies h ps ys r
    → Returns (Keeps calls ys (x ∷ xs)) (added (calls 1) again rest x.rating r)
unfolding added list_is_full
added-Keeps calls again ys xs x rest movies h ps chain only go (ok, movies2, h2)
      (inl (full, failed, same, unchanged)) =
    rw (failed, same, unchanged) (none-kept calls ys xs x movies h ps chain only full)
added-Keeps calls again ys xs x rest movies h ps chain only go (ok, movies2, h2)
      (inr (room, succeeded, chain2, frame)) =
    let ps2 = ps ++ (calls 0).malloc h ∷ [] in
    let only2 : Only h2 ps2 = λ q d.
      let (away, old) = Distinct-rotate q ps ((calls 0).malloc h) d in
      frame q (away, old) ∙ only q old in
    rw succeeded (elim (Bool-cases ((calls 1).malloc h2 == null)) [
      | inl full ↦
          rw full (last-kept calls ys xs x movies2 h2 ps2 chain2 only2 ((==_iff _ _).0 full))
      | inr more ↦ rw more (
          Returns-bind (Keeps (later calls) (ys ++ kept x ∷ []) xs) (Keeps calls ys (x ∷ xs))
            (again rest (some x.rating) movies2 h2) _
            (go movies2 ps2 h2 (length-append ps ((calls 0).malloc h ∷ [])) chain2 only2)
            λ (lines, movies3, h3) keeps. Keeps-next calls ys x xs lines movies3 h3 keeps)
    ])

store_film-Keeps :
    (calls : ℕ → Allocator) (passes : ℕ) (again : Text → Option ℤ → ℕ → Heap → Option Gathered)
    (ys xs : List Film) (x : Film) (rest : Text) (rating : Option ℤ) (movies : ℕ) (h : Heap)
    (ps : List ℕ)
    → IsInt x.rating
    → length ps < passes
    → Chain h movies ps ys
    → Only h ps
    → Goes calls again ys xs x (length ps) rest
    → Returns (Keeps calls ys (x ∷ xs)) (
        store_film calls passes again
          (first (tsize - 1) x.title)
          (show_int x.rating ++ newline ∷ rest)
          rating
          movies
          h)
unfolding store_film discard_line
store_film-Keeps calls passes again ys xs x rest rating movies h ps int lt chain only go =
    rw (scan_int-show_int x.rating newline rest int refl) (
      Returns-bind (Added (calls 0) (kept x) movies h ps ys) (Keeps calls ys (x ∷ xs))
        (add_item (calls 0) passes (kept x) movies h) (added (calls 1) again rest x.rating)
        (add_item-Added (calls 0) passes (kept x) movies h ps ys lt chain)
        (added-Keeps calls again ys xs x rest movies h ps chain only go))

all-kept :
    (calls : ℕ → Allocator) (ys : List Film) (movies : ℕ) (h : Heap) (ps : List ℕ)
    → Chain h movies ps ys
    → Only h ps
    → Keeps calls ys [] ([], movies, h)
all-kept calls ys movies h ps chain only = (
  [],
  [],
  ps,
  refl,
  subst (λ (zs : List Film). Chain h movies ps zs) (sym (append-nil ys)) chain,
  only,
  inl (refl, refl),
)

end-kept :
    (calls : ℕ → Allocator) (passes : ℕ) (again : Text → Option ℤ → ℕ → Heap → Option Gathered)
    (ys : List Film) (rest : Text) (rating : Option ℤ) (movies : ℕ) (h : Heap) (ps : List ℕ)
    → Chain h movies ps ys
    → Only h ps
    → Returns (Keeps calls ys []) (gather_title calls passes again none rest rating movies h)
      × Returns (Keeps calls ys []) (gather_title calls passes again (some []) rest rating movies h)
unfolding gather_title
end-kept calls passes again ys rest rating movies h ps chain only =
    (all-kept calls ys movies h ps chain only, all-kept calls ys movies h ps chain only)

-- The loop ends, from any list.
pub gather-Keeps :
    (calls : ℕ → Allocator) (passes fuel : ℕ) (ys xs : List Film) (end : Text) (rating : Option ℤ)
    (movies : ℕ) (h : Heap) (ps : List ℕ)
    → AllEntries xs
    → IsEnd end
    → length xs < fuel
    → length ps + length xs < passes
    → Chain h movies ps ys
    → Only h ps
    → Returns (Keeps calls ys xs) (gather calls passes fuel (typed xs end) rating movies h)
unfolding gather
gather-Keeps calls passes zero ys xs end rating movies h ps all is_end lt enough chain only =
    absurd (omega arith)
gather-Keeps calls passes (suc fuel) ys [] end rating movies h ps all (inl e) lt enough chain only =
    let read = ap (s_gets tsize) e ∙ s_gets-nil in
    rw read
      (end-kept calls passes (gather (later calls) passes fuel) ys [] rating movies h ps chain
        only).0
gather-Keeps calls passes (suc fuel) ys [] end rating movies h ps all (inr (rest, e)) lt enough
      chain only =
    let read = ap (s_gets tsize) e ∙ s_gets-newline rest in
    rw read
      (end-kept calls passes (gather (later calls) passes fuel) ys rest rating movies h ps chain
        only).1
gather-Keeps calls passes (suc fuel) ys (x ∷ xs) end rating movies h ps
      ((some_title, plain, int), all) is_end lt enough chain only =
    let (c, s, e) = first-cons x.title some_title in
    rw (s_gets-line x.title (show_int x.rating ++ newline ∷ typed xs end) some_title plain) (
      subst (Returns (Keeps calls ys (x ∷ xs)))
        (sym (
          gather_title-some calls passes (gather (later calls) passes fuel)
            (first (tsize - 1) x.title) (show_int x.rating ++ newline ∷ typed xs end) rating movies
            h c s e))
        (store_film-Keeps calls passes (gather (later calls) passes fuel) ys xs x (typed xs end)
          rating movies h ps int (omega arith) chain only
          (λ movies2 ps2 h2 size chain2 only2.
            gather-Keeps (later calls) passes fuel (ys ++ kept x ∷ []) xs end (some x.rating)
              movies2 h2 ps2 all is_end (omega arith) (omega (arith, size)) chain2 only2)))
