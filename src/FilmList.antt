-- ===== src/FilmList.antt =====
-- C_Primer_Plus/ADT/list.c and list.h: the list of films as linked nodes on the heap. A pointer is a
-- number, NULL is 0; `none` is a fault, an access through a pointer to no node, or a loop that does
-- not end on its fuel. `malloc` is a parameter: the address of a fresh node, or NULL.
pub mod Segments
pub mod Operations
use computer_science.Prelude.{
  ℕ, zero, suc, ◌+◌, ◌%◌, ◌^◌, ◌≡◌, ◌≢◌, Bool, true, false, List, [], ◌∷◌, ◌++◌, Option, none, some,
  ◌==◌, ◌>>=◌, if◌then◌else◌,
}
use computer_science.Prelude.Int.{ℤ}
use computer_science.Text.{Text}

-- `struct film`, the `Item` of list.h
pub record Film : Type 0 where
  pub title : Text
  pub rating : ℤ

-- `Node`
pub record Node : Type 0 where
  pub item : Film
  pub next : ℕ

abbrev pub null : ℕ
null = 0

-- The nodes that are allocated.
abbrev pub Heap : Type 0
Heap = ℕ → Option Node

abbrev pub put : Heap → ℕ → Option Node → Heap
put h p c q = if p == q then c else h q

-- What `malloc` is documented to do: it returns NULL, or the address of memory not in use.
pub record Allocator : Type 0 where
  pub malloc : Heap → ℕ
  pub fresh : (h : Heap) → malloc h ≢ null → h (malloc h) ≡ none

unfoldable pub initialize_list : ℕ
initialize_list = null

unfoldable pub list_is_empty : ℕ → Bool
list_is_empty plist = plist == null

-- The node that `malloc` returns is freed again.
unfoldable pub list_is_full : Allocator → Heap → Bool
list_is_full a h = a.malloc h == null

-- `while (pnode != NULL) { ++count; pnode = pnode->next; }`
unfoldable pub count_loop : ℕ → Heap → ℕ → ℕ → Option ℕ
count_loop zero h pnode count = none
count_loop (suc fuel) h pnode count =
    let more = h pnode >>= λ n. count_loop fuel h n.next ((count + 1) % 2 ^ 32) in
    if pnode == null then some count else more

unfoldable pub list_item_count : ℕ → Heap → ℕ → Option ℕ
unfolding count_loop
list_item_count fuel h plist = count_loop fuel h plist 0

-- `while (scan->next != NULL) scan = scan->next; scan->next = pnew;`
unfoldable pub append_loop : ℕ → Heap → ℕ → ℕ → Option Heap
append_loop zero h pnew scan = none
append_loop (suc fuel) h pnew scan = do
  n ← h scan
  let more = append_loop fuel h pnew n.next
  if n.next == null then some (put h scan (some (record n { next = pnew }))) else more

-- `AddItem`: the result, the head of the list, and the heap.
unfoldable pub add_item : Allocator → ℕ → Film → ℕ → Heap → Option (Bool × ℕ × Heap)
unfolding append_loop
add_item a fuel item plist h =
    let pnew = a.malloc h in
    let h1 = put h pnew (some (record { item = item; next = null })) in
    let linked : Option (Bool × ℕ × Heap) =
      append_loop fuel h1 pnew plist >>= λ h2. some (true, plist, h2) in
    if pnew == null
    then some (false, plist, h)
    else (if plist == null then some (true, pnew, h1) else linked)

-- `Traverse`: `pfun` changes a state of the caller's, item by item.
unfoldable pub traverse {ℓ} : {S : Type ℓ} → ℕ → Heap → ℕ → (Film → S → S) → S → Option S
traverse zero h pnode pfun s = none
traverse (suc fuel) h pnode pfun s =
    let more = h pnode >>= λ n. traverse fuel h n.next pfun (pfun n.item s) in
    if pnode == null then some s else more

-- `EmptyTheList`: the head, and the heap without the nodes. `free` needs a node at its address.
unfoldable pub empty_the_list : ℕ → ℕ → Heap → Option (ℕ × Heap)
empty_the_list zero plist h = none
empty_the_list (suc fuel) plist h =
    let more = h plist >>= λ n. empty_the_list fuel n.next (put h plist none) in
    if plist == null then some (plist, h) else more
