-- ===== src/FilmPrograms.antt =====
-- C_Primer_Plus/ADT/films.c, on the list of list.c, and C_Primer_Plus/Data_Representation/films.c and
-- films_malloc.c, on an array: a user types films, and the program shows them. Standard input is what
-- is still to be read, without NUL bytes; a program that reads on behind its end, which all of them do for
-- a last line without a newline, never ends: `none`, as is the use of a rating that has not been set.
-- `fgets`, `getchar` and `scanf` return what is documented.
pub mod Reading
pub mod Keeping
pub mod Listed
pub mod Arrayed
use computer_science.Prelude.{
  ℕ, zero, suc, ◌+◌, ◌-◌, Bool, true, false, List, [], ◌∷◌, ◌++◌, Option, none, some, ltb, ◌==◌,
  ◌>>=◌, if◌then◌else◌, length,
}
use computer_science.Prelude.Int.{ℤ, pos, negsuc}
use computer_science.Text.{Text, newline, split_at}
use computer_science.Text.Decimal.Scanning.{scan_int}
use computer_science.FilmList.{
  Film, Heap, Allocator, initialize_list, list_is_empty, list_is_full, list_item_count, add_item,
  traverse, empty_the_list,
}

abbrev pub tsize : ℕ
tsize = 45

-- What is printed
pub data Line : Type 0 where
  how_many : Line
  first_title : Line
  ask_rating : Line
  next_title : Line
  now_full : Line
  no_memory : Line
  problem : Line
  no_data : Line
  header : Line
  movie : (film : Film) → Line
  entered : (count : ℕ) → Line
  bye : Line

-- At most `n` bytes, up to a newline
unfoldable pub read_bytes : ℕ → Text → Text × Text
read_bytes zero input = ([], input)
read_bytes (suc n) [] = ([], [])
read_bytes (suc n) (c ∷ input) =
    let more = read_bytes n input in if c == newline then (c ∷ [], input) else (c ∷ more.0, more.1)

unfoldable pub fgets : ℕ → Text → Option (Text × Text)
unfolding read_bytes
fgets size [] = none
fgets size (c ∷ input) = some (read_bytes (size - 1) (c ∷ input))

-- `while (getchar() != '\n') continue;`
unfoldable pub discard_line : Text → Option Text
discard_line [] = none
discard_line (c ∷ input) =
    let more = discard_line input in if c == newline then some input else more

-- The end of `s_gets`, for what `strchr` finds in the string
unfoldable pub cut_line : Text → Text → Option (Text × Text) → Option (Text × Text)
unfolding discard_line
cut_line st input none = discard_line input >>= λ rest. some (st, rest)
cut_line st input (some (before, behind)) = some (before, input)

unfoldable pub finish_line : Text × Text → Option (Text × Text)
unfolding cut_line split_at
finish_line (st, input) = cut_line st input (split_at newline st)

unfoldable pub s_gets : ℕ → Text → Option (Option Text × Text)
unfolding fgets finish_line
s_gets n input = elim (fgets n input) [
  | none ↦ some (none, input)
  | some got ↦ finish_line got >>= λ (line, rest). some (some line, rest)
]

-- What the variable of a `scanf` holds behind it, out of what it held before
abbrev pub or_else : Option ℤ → Option ℤ → Option ℤ
or_else none before = before
or_else (some z) before = some z

-- The loop that reads films, round by round, ends with what was printed, the list and the heap.
abbrev pub Gathered : Type 0
Gathered = List Line × ℕ × Heap

-- What a round does with the result of AddItem; `again` is the next round.
unfoldable pub added :
    Allocator
    → (Text → Option ℤ → ℕ → Heap → Option Gathered)
    → Text
    → ℤ
    → Bool × ℕ × Heap
    → Option Gathered
unfolding list_is_full
added a again input value (ok, movies, h) =
    let more : Option Gathered = do
      (lines, movies2, h2) ← again input (some value) movies h
      some (ask_rating ∷ next_title ∷ lines, movies2, h2)
    in let room : Option Gathered =
        if list_is_full a h then some (ask_rating ∷ now_full ∷ [], movies, h) else more in
      if ok then room else some (ask_rating ∷ problem ∷ [], movies, h)

-- A round of the loop behind its condition. `malloc` is called by AddItem and then by ListIsFull, and what it
-- returns may differ from call to call: `calls` is how it behaves at each call, the next one first.
unfoldable pub store_film :
    (ℕ → Allocator)
    → ℕ
    → (Text → Option ℤ → ℕ → Heap → Option Gathered)
    → Text
    → Text
    → Option ℤ
    → ℕ
    → Heap
    → Option Gathered
unfolding discard_line scan_int add_item added
store_film calls passes again title input rating movies h = do
  (scanned, rest) ← scan_int input
  input2 ← discard_line rest
  value ← or_else scanned rating
  result ← add_item (calls 0) passes (record { title = title; rating = value }) movies h
  added (calls 1) again input2 value result

unfoldable pub gather_title :
    (ℕ → Allocator)
    → ℕ
    → (Text → Option ℤ → ℕ → Heap → Option Gathered)
    → Option Text
    → Text
    → Option ℤ
    → ℕ
    → Heap
    → Option Gathered
unfolding store_film
gather_title calls passes again none input rating movies h = some ([], movies, h)
gather_title calls passes again (some []) input rating movies h = some ([], movies, h)
gather_title calls passes again (some (c ∷ title)) input rating movies h =
    store_film calls passes again (c ∷ title) input rating movies h

-- The calls of a round that are behind one more film
abbrev pub later : (ℕ → Allocator) → ℕ → Allocator
later calls i = calls (suc (suc i))

-- `passes` is the fuel of the loops of list.c.
unfoldable pub gather : (ℕ → Allocator) → ℕ → ℕ → Text → Option ℤ → ℕ → Heap → Option Gathered
unfolding gather_title s_gets
gather calls passes zero input rating movies h = none
gather calls passes (suc fuel) input rating movies h = do
  (title, rest) ← s_gets tsize input
  gather_title calls passes
      (λ input2 value movies2 h2. gather (later calls) passes fuel input2 value movies2 h2) title
      rest rating movies h

-- The display
unfoldable pub display : ℕ → ℕ → Heap → Option (List Line)
unfolding list_is_empty traverse
display fuel movies h =
    let shown : Option (List Line) =
      traverse fuel h movies (λ film shown. shown ++ movie film ∷ []) [] >>= λ shown.
      some (header ∷ shown) in
    if list_is_empty movies then some (no_data ∷ []) else shown

-- What stands behind the loop
unfoldable pub show_and_free : ℕ → Gathered → Option (List Line × Heap)
unfolding display list_item_count empty_the_list
show_and_free fuel (lines, movies, h) = do
  shown ← display fuel movies h
  count ← list_item_count fuel h movies
  (movies2, h2) ← empty_the_list fuel movies h
  some (first_title ∷ lines ++ shown ++ entered count ∷ bye ∷ [], h2)

-- `main` of ADT/films.c: what it prints, and the heap that it leaves.
unfoldable pub main : (ℕ → Allocator) → ℕ → Text → Heap → Option (List Line × Heap)
unfolding gather initialize_list list_is_full show_and_free
main calls fuel input h =
    let run =
      gather (λ i. calls (suc i)) fuel fuel input none initialize_list h >>= show_and_free fuel in
    if list_is_full (calls 0) h then some (no_memory ∷ [], h) else run
