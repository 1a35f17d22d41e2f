-- ===== src/FilmList/Operations.antt =====
-- The operations of list.c on a chain are those on the list of its films.
use mathlib.Core.List.{foldl}
use computer_science.Prelude.{
  ℕ, zero, suc, ◌+◌, ◌%◌, ◌^◌, ◌<◌, ◌≤◌, ◌≡◌, ◌≢◌, ◌∙◌, refl, ap, sym, arith, Bool, true, false,
  List, [], ◌∷◌, ◌++◌, Option, none, some, ◌==◌, ◌>>=◌, length, Bool-cases, inl, inr, ◌⊎◌, ==_iff,
  Returns, Returns-map, Returns-bind,
}
use computer_science.FilmList.{
  Film, Node, Heap, Allocator, null, put, count_loop, list_item_count, append_loop, add_item,
  traverse, empty_the_list,
}
use computer_science.FilmList.Segments.{Chain, Distinct, Chain-put, Chain-Distinct}

-- The chain with one more node at its end; no other node has changed.
record Appended (h : Heap) (p : ℕ) (ps : List ℕ) (xs : List Film) (pnew : ℕ) (item : Film)
    (h2 : Heap) : Type 0 where
  chain : Chain h2 p (ps ++ pnew ∷ []) (xs ++ item ∷ [])
  frame : (a : ℕ) → Distinct a ps → h2 a ≡ h a

pub Distinct-append :
    (a : ℕ) (ps : List ℕ) (q : ℕ) → Distinct a ps → a ≢ q → Distinct a (ps ++ q ∷ [])
Distinct-append a [] q d ne = (ne, tt)
Distinct-append a (p ∷ ps) q d ne = (d.0, Distinct-append a ps q d.1 ne)

append_loop-Appended :
    (fuel : ℕ) (h : Heap) (pnew : ℕ) (item : Film) (p q : ℕ) (ps : List ℕ) (x : Film)
    (xs : List Film)
    → length ps + 1 ≤ fuel
    → pnew ≢ null
    → h pnew ≡ some (record { item = item; next = null })
    → Distinct pnew (q ∷ ps)
    → Chain h p (q ∷ ps) (x ∷ xs)
    → Returns (Appended h p (q ∷ ps) (x ∷ xs) pnew item) (append_loop fuel h pnew p)
unfolding append_loop
append_loop-Appended zero h pnew item p q ps x xs f real new d c = absurd (omega arith)
append_loop-Appended (suc fuel) h pnew item p q [] x [] f real new d
      (next, here, r, node, once, rest) =
    rw (here, node, rest)
      (record {
        chain = (
          pnew,
          refl,
          r,
          ground arith,
          Distinct-append q [] pnew tt (λ e. d.0 (sym e)),
          (null, refl, real, ground (arith, new), tt, refl),
        );
        frame = λ a da. ground arith;
      })
append_loop-Appended (suc fuel) h pnew item p q [] x (y ∷ xs) f real new d
      (next, here, r, node, once, rest) =
    absurd rest
append_loop-Appended (suc fuel) h pnew item p q (q2 ∷ ps) x [] f real new d
      (next, here, r, node, once, rest) =
    absurd rest
append_loop-Appended (suc fuel) h pnew item p q (q2 ∷ ps) x (y ∷ xs) f real new d
      (next, here, r, node, once, rest) =
    let more : (next == null) ≡ false = ground (arith, rest.1, rest.2) in
    rw (here, node, more)
      (Returns-map (Appended h next (q2 ∷ ps) (y ∷ xs) pnew item)
        (Appended h q (q ∷ q2 ∷ ps) (x ∷ y ∷ xs) pnew item) (append_loop fuel h pnew next)
        (append_loop-Appended fuel h pnew item next q2 ps y xs (omega arith) real new d.1 rest)
        λ h2 s. record {
          chain = (
            next,
            refl,
            r,
            s.frame q once ∙ node,
            Distinct-append q (q2 ∷ ps) pnew once (λ e. d.0 (sym e)),
            s.chain,
          );
          frame = λ a da. s.frame a da.1;
        })

pub Chain-length :
    (h : Heap) (p : ℕ) (ps : List ℕ) (xs : List Film) → Chain h p ps xs → length ps ≡ length xs
Chain-length h p [] [] c = refl
Chain-length h p [] (x ∷ xs) c = absurd c
Chain-length h p (q ∷ ps) [] c = absurd c
Chain-length h p (q ∷ ps) (x ∷ xs) (next, here, real, node, once, rest) =
    ap suc (Chain-length h next ps xs rest)

count_loop_lem :
    (fuel : ℕ) (h : Heap) (p : ℕ) (ps : List ℕ) (xs : List Film) (count : ℕ)
    → length ps < fuel
    → Chain h p ps xs
    → count < 2 ^ 32
    → count_loop fuel h p count ≡ some ((count + length xs) % 2 ^ 32)
unfolding count_loop
count_loop_lem zero h p ps xs count f c b = absurd (omega arith)
count_loop_lem (suc fuel) h p [] [] count f c b =
    let here : (p == null) ≡ true = ground (arith, c) in rw here (ap some (omega arith))
count_loop_lem (suc fuel) h p [] (x ∷ xs) count f c b = absurd c
count_loop_lem (suc fuel) h p (q ∷ ps) [] count f c b = absurd c
count_loop_lem (suc fuel) h p (q ∷ ps) (x ∷ xs) count f (next, here, real, node, once, rest) b =
    let more : (q == null) ≡ false = ground (arith, real) in
    rw (here, node, more)
      (count_loop_lem fuel h next ps xs ((count + 1) % 2 ^ 32) (omega arith) rest (omega arith)
        ∙ ap some (omega arith))

-- On a chain of nodes with the films `xs`, ListItemCount ends within one pass more than there are
-- nodes and returns the number of films, modulo 2 ^ 32.
pub list_item_count-length :
    (fuel : ℕ) (h : Heap) (p : ℕ) (ps : List ℕ) (xs : List Film)
    → length ps < fuel
    → Chain h p ps xs
    → list_item_count fuel h p ≡ some (length xs % 2 ^ 32)
unfolding list_item_count
list_item_count-length fuel h p ps xs f c =
    count_loop_lem fuel h p ps xs 0 f c (omega arith) ∙ ap some (omega arith)

-- On a chain of nodes with the films `xs`, Traverse ends within one pass more than there are nodes
-- and has called its function on every film once, in the order of the list.
pub traverse-foldl :
    {S : Type 0} (fuel : ℕ) (h : Heap) (p : ℕ) (ps : List ℕ) (xs : List Film) (pfun : Film → S → S)
    (s : S)
    → length ps < fuel
    → Chain h p ps xs
    → traverse fuel h p pfun s ≡ some (foldl (λ t x. pfun x t) s xs)
unfolding traverse
traverse-foldl zero h p ps xs pfun s f c = absurd (omega arith)
traverse-foldl (suc fuel) h p [] [] pfun s f c =
    let here : (p == null) ≡ true = ground (arith, c) in rw here refl
traverse-foldl (suc fuel) h p [] (x ∷ xs) pfun s f c = absurd c
traverse-foldl (suc fuel) h p (q ∷ ps) [] pfun s f c = absurd c
traverse-foldl (suc fuel) h p (q ∷ ps) (x ∷ xs) pfun s f (next, here, real, node, once, rest) =
    let more : (q == null) ≡ false = ground (arith, real) in
    rw (here, node, more) (traverse-foldl fuel h next ps xs pfun (pfun x s) (omega arith) rest)

-- On a chain of nodes with the films `xs`, ListItemCount and Traverse end within one pass more than
-- there are nodes: the one returns the number of films modulo 2 ^ 32, the other has called its function
-- on every film once, in the order of the list.
list_item_count-traverse :
    {S : Type 0} (fuel : ℕ) (h : Heap) (p : ℕ) (ps : List ℕ) (xs : List Film) (pfun : Film → S → S)
    (s : S)
    → length ps < fuel
    → Chain h p ps xs
    → (list_item_count fuel h p ≡ some (length xs % 2 ^ 32))
      × (traverse fuel h p pfun s ≡ some (foldl (λ t x. pfun x t) s xs))
list_item_count-traverse fuel h p ps xs pfun s f c =
    (list_item_count-length fuel h p ps xs f c, traverse-foldl fuel h p ps xs pfun s f c)

-- The chain holds the new film after the old ones, and nodes outside are as before.
abbrev pub Joined : Allocator → Film → Heap → List ℕ → List Film → Bool × ℕ × Heap → Type 0
Joined a item h ps xs (ok, head, h2) =
    (a.malloc h ≢ null)
    × (ok ≡ true)
    × Chain h2 head (ps ++ a.malloc h ∷ []) (xs ++ item ∷ [])
    × ((q : ℕ) → Distinct q (a.malloc h ∷ ps) → h2 q ≡ h q)

-- What AddItem leaves: nothing has changed for want of memory, or the film is in the list.
abbrev pub Added : Allocator → Film → ℕ → Heap → List ℕ → List Film → Bool × ℕ × Heap → Type 0
Added a item plist h ps xs (ok, head, h2) =
    ((a.malloc h ≡ null) × (ok ≡ false) × (head ≡ plist) × (h2 ≡ h))
    ⊎ Joined a item h ps xs (ok, head, h2)

elsewhere : (h : Heap) (n : Option Node) {b r : ℕ} → r ≢ b → put h b n r ≡ h r
elsewhere h n ne = ground arith

append-linked :
    (a : Allocator) (fuel : ℕ) (item : Film) (p : ℕ) (h : Heap) (ps : List ℕ) (xs : List Film)
    → length ps < fuel
    → Chain h p ps xs
    → p ≢ null
    → a.malloc h ≢ null
    → Returns (Added a item p h ps xs) (
        append_loop fuel
          (put h (a.malloc h) (some (record { item = item; next = null })))
          (a.malloc h)
          p
        >>= λ h2. some (true, p, h2))
append-linked a fuel item p h [] [] f c pn real = absurd (pn c)
append-linked a fuel item p h [] (x ∷ xs) f c pn real = absurd c
append-linked a fuel item p h (q ∷ ps) [] f c pn real = absurd c
append-linked a fuel item p h (q ∷ ps) (x ∷ xs) f c pn real =
    let pnew = a.malloc h in
    let h1 = put h pnew (some (record { item = item; next = null })) in
    let apart = Chain-Distinct h p (q ∷ ps) (x ∷ xs) pnew (a.fresh h real) c in
    Returns-bind (Appended h1 p (q ∷ ps) (x ∷ xs) pnew item) (Added a item p h (q ∷ ps) (x ∷ xs))
      (append_loop fuel h1 pnew p) (λ h2. some (true, p, h2))
      (append_loop-Appended fuel h1 pnew item p q ps x xs (omega arith) real (ground arith) apart
        (Chain-put h p (q ∷ ps) (x ∷ xs) pnew _ apart c))
      λ h2 s. inr (real, refl, s.chain, λ r d. s.frame r d.1 ∙ elsewhere h _ d.0)

add-first :
    (a : Allocator) (item : Film) (p : ℕ) (h : Heap) (ps : List ℕ) (xs : List Film)
    → Chain h p ps xs
    → p ≡ null
    → a.malloc h ≢ null
    → Joined a item h ps xs
        (true, a.malloc h, put h (a.malloc h) (some (record { item = item; next = null })))
add-first a item p h [] [] c e real =
    (real, refl, (null, refl, real, ground arith, tt, refl), λ q d. elsewhere h _ d.0)
add-first a item p h [] (x ∷ xs) c e real = absurd c
add-first a item p h (q ∷ ps) [] c e real = absurd c
add-first a item p h (q ∷ ps) (x ∷ xs) (next, here, rn, node, once, rest) e real =
    absurd (rn (sym here ∙ e))

-- AddItem on a chain of nodes with the films `xs` ends: if `malloc` returns NULL it returns false
-- and changes neither the list nor the heap, and otherwise it returns true, the list holds `xs` and
-- then the new film, and nodes that are not of the list are as before.
pub add_item-Added :
    (a : Allocator) (fuel : ℕ) (item : Film) (p : ℕ) (h : Heap) (ps : List ℕ) (xs : List Film)
    → length ps < fuel
    → Chain h p ps xs
    → Returns (Added a item p h ps xs) (add_item a fuel item p h)
unfolding add_item
add_item-Added a fuel item p h ps xs f c = elim (Bool-cases (a.malloc h == null)) [
  | inl full ↦ rw full (inl ((==_iff _ _).0 full, refl, refl, refl))
  | inr room ↦
      let real : a.malloc h ≢ null = ground arith in
      elim (Bool-cases (p == null)) [
        | inl empty ↦
            rw (room, empty) (inr (add-first a item p h ps xs c ((==_iff _ _).0 empty) real))
        | inr more ↦ rw (room, more) (append-linked a fuel item p h ps xs f c (ground arith) real)
      ]
]

-- The heap without the nodes at these addresses.
abbrev pub Freed : Heap → List ℕ → ℕ × Heap → Type 0
Freed h ps (head, h2) =
    (head ≡ null)
    × ((q : ℕ) → Distinct q ps → h2 q ≡ h q)
    × ((q : ℕ) → ¬ (Distinct q ps) → h2 q ≡ none)

put_self : (h : Heap) (q : ℕ) → put h q none q ≡ none
put_self h q = ground arith

gone-next :
    (h : Heap) (q : ℕ) (ps : List ℕ)
    → Distinct q ps
    → (h2 : Heap) → ((a : ℕ) → Distinct a ps → h2 a ≡ put h q none a)
    → ((a : ℕ) → ¬ (Distinct a ps) → h2 a ≡ none)
    → (b : ℕ) → ¬ (Distinct b (q ∷ ps))
    → h2 b ≡ none
gone-next h q ps once h2 frame gone b n = elim (Bool-cases (q == b)) [
  | inl same ↦ ap h2 (sym ((==_iff q b).0 same)) ∙ frame q once ∙ put_self h q
  | inr other ↦ gone b (λ d. n (ground arith, d))
]

-- EmptyTheList on a chain of nodes ends within one pass more than there are nodes: every node of the
-- chain is freed, once, the head is NULL, and all other nodes are as before.
pub empty_the_list-Freed :
    (fuel : ℕ) (h : Heap) (p : ℕ) (ps : List ℕ) (xs : List Film)
    → length ps < fuel
    → Chain h p ps xs
    → Returns (Freed h ps) (empty_the_list fuel p h)
unfolding empty_the_list
empty_the_list-Freed zero h p ps xs f c = absurd (omega arith)
empty_the_list-Freed (suc fuel) h p [] [] f c =
    let here : (p == null) ≡ true = ground (arith, c) in
    rw here (c, λ q d. refl, λ q n. absurd (n tt))
empty_the_list-Freed (suc fuel) h p [] (x ∷ xs) f c = absurd c
empty_the_list-Freed (suc fuel) h p (q ∷ ps) [] f c = absurd c
empty_the_list-Freed (suc fuel) h p (q ∷ ps) (x ∷ xs) f (next, here, real, node, once, rest) =
    let more : (q == null) ≡ false = ground (arith, real) in
    rw (here, node, more)
      (Returns-map (Freed (put h q none) ps) (Freed h (q ∷ ps))
        (empty_the_list fuel next (put h q none))
        (empty_the_list-Freed fuel (put h q none) next ps xs (omega arith)
          (Chain-put h next ps xs q none once rest))
        λ (head, h2) (e, frame, gone). (
          e,
          λ b d. frame b d.1 ∙ elsewhere h _ (λ same. d.0 same),
          gone-next h q ps once h2 frame gone,
        ))
