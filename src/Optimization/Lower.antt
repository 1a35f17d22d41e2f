-- ===== src/Optimization/Lower.antt =====
-- `lower1` and `lower2` do the same: the length of a string does not change while it is lowered.
use computer_science.Prelude.{
  ℕ, zero, suc, ◌+◌, ◌≤◌, ◌<◌, ◌≡◌, ◌≢◌, ap, arith, ◌&&◌, some, ltb, leb, ◌==◌, if◌then◌else◌,
  Bool-cases, inl, inr,
}
use computer_science.Optimization.{Bytes, strlen_loop, strlen, lower_byte}

-- A string of `n` bytes.
pub record IsString (n : ℕ) (s : Bytes) : Type 0 where
  pub ends : s n ≡ 0
  pub before : (i : ℕ) → i < n → s i ≢ 0

strlen_loop-IsString :
    (fuel n i : ℕ) (s : Bytes) → IsString n s → i ≤ n → n < i + fuel → strlen_loop fuel s i ≡ some n
unfolding strlen_loop
strlen_loop-IsString zero n i s h le f = absurd (omega arith)
strlen_loop-IsString (suc fuel) n i s h le f = elim (Bool-cases (s i == 0)) [
  | inl here ↦ let at_end : i ≡ n = ground (arith, h.before i, here) in rw here (ap some at_end)
  | inr more ↦
      let inside : i < n = ground (arith, h.ends, more) in
      rw more (strlen_loop-IsString fuel n (i + 1) s h (omega arith) (omega arith))
]

pub strlen-IsString : (bound n : ℕ) (s : Bytes) → IsString n s → n < bound → strlen bound s ≡ some n
unfolding strlen
strlen-IsString bound n s h lt = strlen_loop-IsString bound n 0 s h (omega arith) (omega arith)

-- The bytes at `lo` up to `hi` are lowered, the others are as before.
Lowered : ℕ → ℕ → Bytes → Bytes → Type 0
Lowered lo hi s t = (j : ℕ) → t j ≡ (if leb lo j && ltb j hi then lower_byte (s j) else s j)
