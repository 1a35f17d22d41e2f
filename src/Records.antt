-- ===== src/Records.antt =====
-- CMU15-213/08-machine-data/structure.c: the list of records. A pointer is a number, NULL is 0;
-- `none` is an access through a pointer to no record, an index outside `a`, or a list that does not
-- end on the fuel of the loop.
pub mod Values
use computer_science.Prelude.{
  ℕ, zero, suc, ◌%◌, ◌^◌, Bool, true, false, Option, none, some, leb, ltb, ◌==◌, ◌>>=◌,
  if◌then◌else◌,
}
use computer_science.Prelude.Int.{ℤ}
use computer_science.Control.Branches.{same}

-- `struct rec`
pub record Rec : Type 0 where
  pub a : ℕ → ℤ
  pub i : ℕ
  pub next : ℕ

abbrev pub Store : Type 0
Store = ℕ → Option Rec

abbrev pub write : Store → ℕ → Option Rec → Store
write h p c q = if p == q then c else h q

-- `r->a[i] = val`
abbrev pub with_val : Rec → ℕ → ℤ → Rec
with_val r i val = record r { a = λ k. if i == k then val else r.a k }

unfoldable pub set_i : Store → ℕ → ℕ → Option Store
set_i h r val = h r >>= λ n. some (write h r (some (record n { i = val })))

-- `while (!found && r)`
unfoldable pub check_val : ℕ → Store → ℕ → ℤ → Option Bool
check_val zero h r val = none
check_val (suc fuel) h r val =
    let tested : Option Bool = do
      n ← h r
      let more = check_val fuel h n.next val
      let found = if same (n.a n.i) val then some true else more
      if ltb n.i 4 then found else none
    in if r == 0 then some false else tested

-- `int i = r->i` keeps the low 32 bits of the index; a negative one is outside `a`.
unfoldable pub set_val : ℕ → Store → ℕ → ℤ → Option Store
set_val zero h r val = none
set_val (suc fuel) h r val =
    let changed : Option Store = do
      n ← h r
      let i = n.i % 2 ^ 32
      let more = set_val fuel (write h r (some (with_val n i val))) n.next val
      if ltb i 4 then more else none
    in if r == 0 then some h else changed
