-- ===== src/Parallel/Choice.antt =====
-- Choosing a task from a pool changes only the order of the tasks.
use computer_science.Prelude.{
  ℕ, zero, suc, ◌+◌, ◌≡◌, refl, arith, ◌⊎◌, inl, inr, List, [], ◌∷◌, ◌++◌, length,
}
use computer_science.Parallel.Pool.{choose}

module _ {ℓ} {T : Type ℓ} where
  abbrev pub All : (T → Type 0) → List T → Type 0
  All P [] = Unit
  All P (t ∷ ts) = P t × All P ts

  abbrev pub Exists : (T → Type 0) → List T → Type 0
  Exists P [] = ⊥
  Exists P (t ∷ ts) = P t ⊎ Exists P ts

  -- Any two of the tasks stand in the relation.
  abbrev pub Pairwise : (T → T → Type 0) → List T → Type 0
  Pairwise R [] = Unit
  Pairwise R (t ∷ ts) = All (R t) ts × Pairwise R ts

  abbrev pub sum_of : (T → ℕ) → List T → ℕ
  sum_of f [] = 0
  sum_of f (t ∷ ts) = f t + sum_of f ts

  pub All-map : {P Q : T → Type 0} (ts : List T) → ((t : T) → P t → Q t) → All P ts → All Q ts
  All-map [] h a = tt
  All-map (t ∷ ts) h a = (h t a.0, All-map ts h a.1)

  pub All-append : (P : T → Type 0) (ts us : List T) → All P ts → All P us → All P (ts ++ us)
  All-append P [] us h k = k
  All-append P (t ∷ ts) us h k = (h.0, All-append P ts us h.1 k)

  pub sum_of-append : (f : T → ℕ) (ts us : List T) → sum_of f (ts ++ us) ≡ sum_of f ts + sum_of f us
  sum_of-append f [] us = omega arith
  sum_of-append f (t ∷ ts) us = omega (arith, sum_of-append f ts us)

  pub All-choose :
      (P : T → Type 0) (i : ℕ) (t : T) (ts : List T)
      → All P (t ∷ ts)
      → All P ((choose i t ts).0 ∷ (choose i t ts).1)
  All-choose P zero t ts h = h
  All-choose P (suc i) t [] h = h
  All-choose P (suc i) t (u ∷ us) h = let k = All-choose P i u us h.1 in (k.0, (h.0, k.1))

  pub Exists-choose :
      (P : T → Type 0) (i : ℕ) (t : T) (ts : List T)
      → Exists P (t ∷ ts)
      → Exists P ((choose i t ts).0 ∷ (choose i t ts).1)
  Exists-choose P zero t ts h = h
  Exists-choose P (suc i) t [] h = h
  Exists-choose P (suc i) t (u ∷ us) (inl h) = inr (inl h)
  Exists-choose P (suc i) t (u ∷ us) (inr h) = elim (Exists-choose P i u us h) [
    | inl k ↦ inl k
    | inr k ↦ inr (inr k)
  ]

  pub sum_of-choose :
      (f : T → ℕ) (i : ℕ) (t : T) (ts : List T)
      → sum_of f ((choose i t ts).0 ∷ (choose i t ts).1) ≡ sum_of f (t ∷ ts)
  sum_of-choose f zero t ts = refl
  sum_of-choose f (suc i) t [] = refl
  sum_of-choose f (suc i) t (u ∷ us) = omega (arith, sum_of-choose f i u us)

  pub length-choose :
      (i : ℕ) (t : T) (ts : List T)
      → length ((choose i t ts).0 ∷ (choose i t ts).1) ≡ length (t ∷ ts)
  length-choose zero t ts = refl
  length-choose (suc i) t [] = refl
  length-choose (suc i) t (u ∷ us) = omega (arith, length-choose i u us)

  pub Pairwise-choose :
      (R : T → T → Type 0) (i : ℕ) (t : T) (ts : List T)
      → ((a b : T) → R a b → R b a)
      → Pairwise R (t ∷ ts)
      → Pairwise R ((choose i t ts).0 ∷ (choose i t ts).1)
  Pairwise-choose R zero t ts sym_R h = h
  Pairwise-choose R (suc i) t [] sym_R h = h
  Pairwise-choose R (suc i) t (u ∷ us) sym_R h =
      let k = Pairwise-choose R i u us sym_R h.1 in
      let here = All-choose (R t) i u us h.0 in
      ((sym_R t (choose i u us).0 here.0, k.0), (here.1, k.1))
