-- ===== src/FilmList/Segments.antt =====
-- A chain of nodes that holds given films.
use computer_science.Prelude.{ℕ, ◌≡◌, ◌≢◌, refl, ap, sym, arith, List, [], ◌∷◌, Option, none, some}
use computer_science.FilmList.{Film, Node, Heap, null, put}

-- The address is none of these.
abbrev pub Distinct : ℕ → List ℕ → Type 0
Distinct a [] = Unit
Distinct a (q ∷ ps) = (a ≢ q) × Distinct a ps

-- From `p` to NULL stand the nodes at the addresses `ps`, with the films `xs`; no address comes twice.
abbrev pub Chain : Heap → ℕ → List ℕ → List Film → Type 0
Chain h p [] [] = p ≡ null
Chain h p (q ∷ ps) (x ∷ xs) =
    (next : ℕ) × (p ≡ q)
    × (q ≢ null)
    × (h q ≡ some (record { item = x; next = next }))
    × Distinct q ps
    × Chain h next ps xs
Chain h p ps xs = ⊥

-- A write elsewhere leaves the chain.
pub Chain-put :
    (h : Heap) (p : ℕ) (ps : List ℕ) (xs : List Film) (a : ℕ) (c : Option Node)
    → Distinct a ps
    → Chain h p ps xs
    → Chain (put h a c) p ps xs
Chain-put h p [] [] a c d e = e
Chain-put h p [] (x ∷ xs) a c d e = e
Chain-put h p (q ∷ ps) [] a c d e = e
Chain-put h p (q ∷ ps) (x ∷ xs) a c d (next, here, real, node, once, rest) =
    (next, here, real, ground arith, once, Chain-put h next ps xs a c d.1 rest)

-- So does any change of the heap that keeps the nodes of the chain.
pub Chain-frame :
    (h h' : Heap) (p : ℕ) (ps : List ℕ) (xs : List Film)
    → Chain h p ps xs
    → ((q : ℕ) (n : Node) → h q ≡ some n → ¬ (Distinct q ps) → h' q ≡ some n)
    → Chain h' p ps xs
Chain-frame h h' p [] [] e keep = e
Chain-frame h h' p [] (x ∷ xs) e keep = e
Chain-frame h h' p (q ∷ ps) [] e keep = e
Chain-frame h h' p (q ∷ ps) (x ∷ xs) (next, here, real, node, once, rest) keep = (
  next,
  here,
  real,
  keep q _ node (λ d. d.0 refl),
  once,
  Chain-frame h h' next ps xs rest (λ r n e nd. keep r n e (λ d. nd d.1)),
)

-- An address with no node is not in the chain.
pub Chain-Distinct :
    (h : Heap) (p : ℕ) (ps : List ℕ) (xs : List Film) (a : ℕ)
    → h a ≡ none
    → Chain h p ps xs
    → Distinct a ps
Chain-Distinct h p [] xs a e c = tt
Chain-Distinct h p (q ∷ ps) [] a e c = absurd c
Chain-Distinct h p (q ∷ ps) (x ∷ xs) a e (next, here, real, node, once, rest) =
    (λ same. cc (ap h same), Chain-Distinct h next ps xs a e rest)

-- A chain is empty exactly if its pointer is NULL.
pub Chain-null : (h : Heap) (ps : List ℕ) (xs : List Film) → Chain h null ps xs → xs ≡ []
Chain-null h [] [] e = refl
Chain-null h [] (x ∷ xs) e = absurd e
Chain-null h (q ∷ ps) [] e = absurd e
Chain-null h (q ∷ ps) (x ∷ xs) (next, here, real, node, once, rest) = absurd (real (sym here))
