-- ===== src/Memory.antt =====
-- C memory seen as an array of `data_t`: an address is the index of an element. Pointers of
-- pqsort.c are such addresses, and `p + i` is the sum.
pub mod Counts
pub mod Segments
use computer_science.Prelude.{ℕ, ◌==◌, if◌then◌else◌, ◌≡◌, ◌≢◌, arith}

abbrev pub Memory : Type 0
Memory = ℕ → ℕ

-- `*p = v`
abbrev pub update : Memory → ℕ → ℕ → Memory
update m p v q = if p == q then v else m q

pub update_self : (m : Memory) (p v : ℕ) → update m p v p ≡ v
update_self m p v = ground arith

pub update_ne : (m : Memory) (p v q : ℕ) → p ≢ q → update m p v q ≡ m q
update_ne m p v q h = ground arith

-- `swap` of pqsort.c: both values are read, then both written.
unfoldable pub swap : Memory → ℕ → ℕ → Memory
swap m p1 p2 = let x1 = m p1 in let x2 = m p2 in update (update m p1 x2) p2 x1
