-- ===== src/SortBench/Filling.antt =====
-- `gen_data`: all copies hold the same data.
use computer_science.Prelude.{
  ℕ, zero, suc, ◌+◌, ◌≤◌, ◌<◌, ◌≡◌, ◌∙◌, ◌⊎◌, refl, inl, inr, arith, false, List, [], ◌∷◌, ◌==◌,
  Bool-cases, ==_iff,
}
use computer_science.Memory.{Memory, update}
use computer_science.SortBench.{write_copies, fill}

abbrev pub Listed : ℕ → List ℕ → Type 0
Listed a [] = ⊥
Listed a (b ∷ copies) = (a ≡ b) ⊎ Listed a copies

write_copies-keeps :
    (copies : List ℕ) (i v : ℕ) (m : Memory) (q : ℕ) → m q ≡ v → write_copies copies i v m q ≡ v
unfolding write_copies
write_copies-keeps [] i v m q e = e
write_copies-keeps (a ∷ copies) i v m q e =
    write_copies-keeps copies i v (update m (a + i) v) q (ground (arith, e))

write_copies-Listed :
    (copies : List ℕ) (i v : ℕ) (m : Memory) (a : ℕ)
    → Listed a copies
    → write_copies copies i v m (a + i) ≡ v
unfolding write_copies
write_copies-Listed [] i v m a h = absurd h
write_copies-Listed (b ∷ copies) i v m a (inl e) =
    write_copies-keeps copies i v (update m (b + i) v) (a + i) (ground (arith, e))
write_copies-Listed (b ∷ copies) i v m a (inr h) =
    write_copies-Listed copies i v (update m (b + i) v) a h

write_copies-elsewhere :
    (copies : List ℕ) (i v : ℕ) (m : Memory) (q : ℕ)
    → ((b : ℕ) → Listed b copies → b + i ≡ q → ⊥)
    → write_copies copies i v m q ≡ m q
unfolding write_copies
write_copies-elsewhere [] i v m q h = refl
write_copies-elsewhere (b ∷ copies) i v m q h =
    write_copies-elsewhere copies i v (update m (b + i) v) q (λ c l. h c (inr l))
    ∙ ground (arith, h b (inl refl))

-- Two copies are one, or do not overlap.
abbrev pub Spread : ℕ → List ℕ → Type 0
Spread nele copies =
    (a b : ℕ) → Listed a copies → Listed b copies → (a ≡ b) ⊎ ((a + nele ≤ b) ⊎ (b + nele ≤ a))

-- The first `i` elements of all copies are random.
abbrev Filled : (ℕ → ℕ) → List ℕ → ℕ → Memory → Type 0
Filled random copies i m = (k a : ℕ) → k < i → Listed a copies → m (a + k) ≡ random k

write_copies-Filled :
    (random : ℕ → ℕ) (nele : ℕ) (copies : List ℕ) (i : ℕ) (m : Memory)
    → Spread nele copies
    → i < nele
    → Filled random copies i m
    → Filled random copies (i + 1) (write_copies copies i (random i) m)
write_copies-Filled random nele copies i m spread lt filled k a below listed =
    elim (Bool-cases (k == i)) [
      | inl now ↦ rw ((==_iff k i).0 now) (write_copies-Listed copies i (random i) m a listed)
      | inr old ↦
          write_copies-elsewhere copies i (random i) m (a + k)
            (λ b l e. apart b old (spread a b listed l) e)
          ∙ filled k a (ground (arith, old)) listed
    ]
  where
    apart :
        (b : ℕ) → (k == i) ≡ false → (a ≡ b) ⊎ ((a + nele ≤ b) ⊎ (b + nele ≤ a)) → b + i ≡ a + k → ⊥
    apart b old (inl same) e = ground (arith, old, same, e)
    apart b old (inr (inl before)) e = omega (arith, before, e, below)
    apart b old (inr (inr after)) e = omega (arith, after, e, below)

pub fill-Filled :
    (random : ℕ → ℕ) (nele : ℕ) (copies : List ℕ) (i left : ℕ) (m : Memory)
    → Spread nele copies
    → i + left ≤ nele
    → Filled random copies i m
    → Filled random copies (i + left) (fill random copies i left m)
unfolding fill
fill-Filled random nele copies i zero m spread le filled = λ k a lt. filled k a (omega (arith, lt))
fill-Filled random nele copies i (suc left) m spread le filled = λ k a lt.
    fill-Filled random nele copies (i + 1) left (write_copies copies i (random i) m) spread
      (omega arith) (write_copies-Filled random nele copies i m spread (omega arith) filled) k a
      (omega (arith, lt))
