-- ===== src/Prelude/Loops.antt =====
-- Counted loops: `for (k = i; k < i + n; k++)` is `for_range n i`, and `on` is a guarded step.
-- The laws take a loop over steps that fire at one index to that step.
use Prim.Native.Nat.{ℕ, zero, suc, ◌+◌, ◌-◌, ◌*◌, ◌/◌, ◌≤◌, ◌<◌}
use mathlib.Core.Path.{◌≡◌, refl, sym, ◌∙◌, ap, subst, fun_ext}
use mathlib.Core.Logic.{inl, inr}
use mathlib.Core.Bool.{Bool, true, false, ◌&&◌, ◌||◌}
use native.Mathlib.Omega.{arith}
use native.Mathlib.Nat.{zero-add, add-zero, suc-add, zero-mul, mul_comm}
use computer_science.Prelude.Tests.{ltb, leb, ◌==◌, if◌then◌else◌, Bool-cases}

unfoldable pub for_range {ℓ} : {S : Type ℓ} (count lo : ℕ) (step : ℕ → S → S) → S → S
for_range zero lo step x = x
for_range (suc count) lo step x = for_range count (lo + 1) step (step lo x)

-- `for (k = 0; k < stop; k += step)`, which runs `⌈stop / step⌉` times
unfoldable pub for_step {ℓ} : {S : Type ℓ} → ℕ → ℕ → (ℕ → S → S) → S → S
for_step stop step body s = for_range ((stop + step - 1) / step) 0 (λ b. body (b * step)) s

-- `if (c) x = f(x)`
unfoldable pub on {ℓ} : {S : Type ℓ} → Bool → (S → S) → S → S
on c f s = if c then f s else s

-- `a` is one of the `n` indices from `i` on.
unfoldable pub inside : ℕ → ℕ → ℕ → Bool
inside i n a = leb i a && ltb a (i + n)

inside_union : (i n r a : ℕ) → inside i (n + r) a ≡ (inside i n a || inside (i + n) r a)
unfolding inside
inside_union i n r a = ground arith

inside_disjoint : (i n r a : ℕ) → (inside i n a && inside (i + n) r a) ≡ false
unfolding inside
inside_disjoint i n r a = ground arith

inside-zero : (i a : ℕ) → inside i 0 a ≡ false
unfolding inside
inside-zero i a = ground arith

module _ {ℓ} {S : Type ℓ} where
  pub for_range-congr :
      (n i : ℕ) (f g : ℕ → S → S)
      → ((k : ℕ) (s : S) → f k s ≡ g k s)
      → (s : S) → for_range n i f s ≡ for_range n i g s
  unfolding for_range
  for_range-congr zero i f g e s = refl
  for_range-congr (suc n) i f g e s = rw (e i s) (for_range-congr n (i + 1) f g e (g i s))

  pub for_range-on_at :
      (n i : ℕ) (c : Bool) (h : ℕ → S → S) (s : S)
      → for_range n i (λ k. on c (h k)) s ≡ on c (for_range n i h) s
  unfolding for_range on
  for_range-on_at zero i true h s = refl
  for_range-on_at zero i false h s = refl
  for_range-on_at (suc n) i true h s = for_range-on_at n (i + 1) true h (h i s)
  for_range-on_at (suc n) i false h s = for_range-on_at n (i + 1) false h s

  -- A guard that does not depend on the index leaves the loop.
  pub for_range-on :
      (n i : ℕ) (c : Bool) (h : ℕ → S → S)
      → for_range n i (λ k. on c (h k)) ≡ on c (for_range n i h)
  for_range-on n i c h = fun_ext (for_range-on_at n i c h)

  for_range-miss :
      (n i a : ℕ) (h : ℕ → S → S) (s : S) → a < i → for_range n i (λ k. on (k == a) (h k)) s ≡ s
  unfolding for_range on
  for_range-miss zero i a h s lt = refl
  for_range-miss (suc n) i a h s lt = ground (arith, for_range-miss n (i + 1) a h s)

  pub for_range-hit_at :
      (n i a : ℕ) (h : ℕ → S → S) (s : S)
      → for_range n i (λ k. on (k == a) (h k)) s ≡ on (inside i n a) (h a) s
  unfolding for_range on inside
  for_range-hit_at zero i a h s = ground arith
  for_range-hit_at (suc n) i a h s = elim (Bool-cases (i == a)) [
    | inl here ↦
        let e : i ≡ a = ground arith in
        ground (arith, for_range-miss n (i + 1) a h (h i s), ap (λ (k : ℕ). h k s) e)
    | inr away ↦ ground (arith, for_range-hit_at n (i + 1) a h s)
  ]

  -- A loop whose step fires at one index is that step, if the index is met.
  pub for_range-hit :
      (n i a : ℕ) (h : ℕ → S → S) → for_range n i (λ k. on (k == a) (h k)) ≡ on (inside i n a) (h a)
  for_range-hit n i a h = fun_ext (for_range-hit_at n i a h)

  -- Two loops in a row over adjacent ranges are one.
  pub for_range_add :
      (n r i : ℕ) (h : ℕ → S → S) (s : S)
      → for_range r (i + n) h (for_range n i h s) ≡ for_range (n + r) i h s
  unfolding for_range
  for_range_add zero r i h s = rw (zero-add r, add-zero i)
  for_range_add (suc n) r i h s =
      let shift : i + suc n ≡ i + 1 + n = omega arith in
      rw (suc-add n r, shift) (for_range_add n r (i + 1) h (h i s))

  -- A loop over blocks with a loop over each block is one loop.
  pub for_range-for_range :
      (q i w : ℕ) (h : ℕ → S → S) (s : S)
      → for_range q i (λ c. for_range w (c * w) h) s ≡ for_range (q * w) (i * w) h s
  unfolding for_range
  for_range-for_range zero i w h s = rw (zero-mul w)
  for_range-for_range (suc q) i w h s =
      let size : suc q * w ≡ w + q * w = grind arith in
      let next : (i + 1) * w ≡ i * w + w = grind arith in
      for_range-for_range q (i + 1) w h (for_range w (i * w) h s)
      ∙ rw (size, next) (for_range_add w (q * w) (i * w) h s)

  on_disjoint :
      (c d : Bool) (g : S → S) (s : S) → (c && d) ≡ false → on d g (on c g s) ≡ on (c || d) g s
  unfolding on
  on_disjoint true true g s e = cc
  on_disjoint true false g s e = refl
  on_disjoint false true g s e = refl
  on_disjoint false false g s e = refl

  -- Steps that fire on adjacent ranges fire on their union.
  pub on-on :
      (i n r a : ℕ) (g : S → S) (s : S)
      → on (inside (i + n) r a) g (on (inside i n a) g s) ≡ on (inside i (n + r) a) g s
  on-on i n r a g s =
      on_disjoint (inside i n a) (inside (i + n) r a) g s (inside_disjoint i n r a)
      ∙ ap (λ c. on c g s) (sym (inside_union i n r a))

  pub for_range-blocks_at :
      (q i w a : ℕ) (g : S → S) (s : S)
      → for_range q i (λ c. on (inside (c * w) w a) g) s ≡ on (inside (i * w) (q * w) a) g s
  unfolding for_range on
  for_range-blocks_at zero i w a g s = rw (zero-mul w, inside-zero (i * w) a)
  for_range-blocks_at (suc q) i w a g s =
      let size : suc q * w ≡ w + q * w = grind arith in
      let next : (i + 1) * w ≡ i * w + w = grind arith in
      for_range-blocks_at q (i + 1) w a g (on (inside (i * w) w a) g s)
      ∙ rw (size, next) (on-on (i * w) w (q * w) a g s)

  -- A step that fires once in the blocks of a range fires if the range is met.
  pub for_range-blocks :
      (q i w a : ℕ) (g : S → S)
      → for_range q i (λ c. on (inside (c * w) w a) g) ≡ on (inside (i * w) (q * w) a) g
  for_range-blocks q i w a g = fun_ext (for_range-blocks_at q i w a g)

-- A stride that divides the end of the loop.
rounds_exact : (q w : ℕ) → 0 < w → (w * q + w - 1) / w ≡ q
rounds_exact q w h = grind arith

module _ {ℓ} {S : Type ℓ} (q w : ℕ) (pos : 0 < w) where
  -- A loop with a stride that divides its end runs over the multiples of the stride.
  pub for_step-eq-for_range :
      (body : ℕ → S → S) → for_step (w * q) w body ≡ for_range q 0 (λ c. body (c * w))
  unfolding for_step
  for_step-eq-for_range body = fun_ext (λ s. rw (rounds_exact q w pos))

  -- The blocks of such a loop hold each index below its end once.
  pub for_step-blocks :
      (a : ℕ) (g : S → S)
      → for_step (w * q) w (λ jj. on (inside jj w a) g) ≡ on (inside 0 (w * q) a) g
  for_step-blocks a g =
      for_step-eq-for_range (λ jj. on (inside jj w a) g)
      ∙ for_range-blocks q 0 w a g
      ∙ rw (zero-mul w, mul_comm q w)

  pub for_step-for_range :
      (h : ℕ → S → S) → for_step (w * q) w (λ kk. for_range w kk h) ≡ for_range (w * q) 0 h
  for_step-for_range h =
      for_step-eq-for_range (λ kk. for_range w kk h)
      ∙ fun_ext (for_range-for_range q 0 w h)
      ∙ rw (zero-mul w, mul_comm q w)

  pub for_step-on :
      (c : Bool) (h : ℕ → S → S)
      → for_step (w * q) w (λ k. on c (h k)) ≡ on c (for_step (w * q) w h)
  unfolding for_step
  for_step-on c h = for_range-on ((w * q + w - 1) / w) 0 c (λ b. h (b * w))

module _ {ℓ} {S : Type ℓ} where
  -- Guarded steps in a row.
  pub on_twice : (c : Bool) (f g : S → S) (s : S) → on c g (on c f s) ≡ on c (λ x. g (f x)) s
  unfolding on
  on_twice true f g s = refl
  on_twice false f g s = refl

  -- Two ranges that make up `0 .. n`.
  pub on_split :
      (k n a : ℕ) (g : S → S) (s : S)
      → k ≤ n
      → on (inside k (n - k) a) g (on (inside 0 k a) g s) ≡ on (inside 0 n a) g s
  on_split k n a g s le =
      let size : k + (n - k) ≡ n = omega arith in
      subst (λ z. on (inside z (n - k) a) g (on (inside 0 k a) g s) ≡ on (inside 0 n a) g s)
        (zero-add k) (on-on 0 k (n - k) a g s ∙ ap (λ (z : ℕ). on (inside 0 z a) g s) size)

  pub for_range_split :
      (k n : ℕ) (h : ℕ → S → S) (s : S)
      → k ≤ n
      → for_range (n - k) k h (for_range k 0 h s) ≡ for_range n 0 h s
  for_range_split k n h s le =
      let size : k + (n - k) ≡ n = omega arith in
      subst (λ z. for_range (n - k) z h (for_range k 0 h s) ≡ for_range n 0 h s) (zero-add k)
        (for_range_add k (n - k) 0 h s ∙ ap (λ (z : ℕ). for_range z 0 h s) size)
