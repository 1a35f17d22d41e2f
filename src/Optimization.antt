-- ===== src/Optimization.antt =====
-- CMU15-213/10-optimization: lower.c, sum_rows.c and subexpr.c, with their slow and fast versions. A
-- string is an array of bytes up to its NUL; the two arrays of sum_rows.c lie in one memory, where
-- they may overlap.
pub mod Lower
pub mod Rows
use computer_science.Prelude.{
  ℕ, zero, suc, ◌+◌, ◌-◌, ◌*◌, Bool, true, false, ◌&&◌, Option, none, some, ltb, leb, ◌==◌, ◌>>=◌,
  if◌then◌else◌,
}
use computer_science.Prelude.Int.{ℤ, add_long}
use computer_science.Prelude.Loops.{for_range}
use computer_science.MatMult.{Double}

abbrev pub Bytes : Type 0
Bytes = ℕ → ℕ

-- `while (*s != '\0') { s++; length++; }`, on fuel.
unfoldable pub strlen_loop : ℕ → Bytes → ℕ → Option ℕ
strlen_loop zero s length = none
strlen_loop (suc fuel) s length =
    let again = strlen_loop fuel s (length + 1) in if s length == 0 then some length else again

unfoldable pub strlen : ℕ → Bytes → Option ℕ
unfolding strlen_loop
strlen fuel s = strlen_loop fuel s 0

-- `if (s[i] >= 'A' && s[i] <= 'Z') s[i] -= ('A' - 'a');`
abbrev pub lower_byte : ℕ → ℕ
lower_byte c = if leb b'A' c && leb c b'Z' then c + 32 else c

abbrev pub lower_at : ℕ → Bytes → Bytes
lower_at i s j = if i == j then lower_byte (s j) else s j

-- The loop of `lower1`, which calls `strlen` in front of every pass.
unfoldable pub lower1_loop : ℕ → ℕ → ℕ → Bytes → Option Bytes
unfolding strlen
lower1_loop zero bound i s = none
lower1_loop (suc fuel) bound i s = do
  len ← strlen bound s
  let again = lower1_loop fuel bound (i + 1) (lower_at i s)
  if ltb i len then again else some s

unfoldable pub lower1 : ℕ → Bytes → Option Bytes
unfolding lower1_loop
lower1 bound s = lower1_loop bound bound 0 s

unfoldable pub lower2 : ℕ → Bytes → Option Bytes
unfolding strlen
lower2 bound s = strlen bound s >>= λ len. some (for_range len 0 lower_at s)

module _ (F : Double) where
  open F use {D, zero, add}

  -- `mem[p] = x`
  abbrev pub store : ℕ → D → (ℕ → D) → ℕ → D
  store p x mem q = if p == q then x else mem q

  unfoldable pub sum_rows1 : ℕ → ℕ → ℕ → (ℕ → D) → ℕ → D
  sum_rows1 a b n = for_range n 0 λ i mem.
      for_range n 0 (λ j m. store (b + i) (add (m (b + i)) (m (a + (i * n + j)))) m)
        (store (b + i) zero mem)

  unfoldable pub sum_rows2 : ℕ → ℕ → ℕ → (ℕ → D) → ℕ → D
  sum_rows2 a b n = for_range n 0 λ i mem.
      let val = for_range n 0 (λ j v. add v (mem (a + (i * n + j)))) zero in store (b + i) val mem

-- The indices stay inside the array; `none` is an overflow of a sum.
unfoldable pub sum_neighbors : (ℕ → ℤ) → ℕ → ℕ → ℕ → Option ℤ
sum_neighbors val i j n =
    let up = val ((i - 1) * n + j) in
    let down = val ((i + 1) * n + j) in
    let left = val (i * n + j - 1) in
    let right = val (i * n + j + 1) in
    add_long up down >>= λ s. add_long s left >>= λ t. add_long t right

unfoldable pub sum_neighbors_opt : (ℕ → ℤ) → ℕ → ℕ → ℕ → Option ℤ
sum_neighbors_opt val i j n =
    let inj = i * n + j in
    let up = val (inj - n) in
    let down = val (inj + n) in
    let left = val (inj - 1) in
    let right = val (inj + 1) in add_long up down >>= λ s. add_long s left >>= λ t. add_long t right
