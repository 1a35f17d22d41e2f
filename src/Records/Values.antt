-- ===== src/Records/Values.antt =====
-- `set_val` and `check_val` on a list of records.
use computer_science.Prelude.{
  ℕ, zero, suc, ◌+◌, ◌%◌, ◌^◌, ◌<◌, ◌≡◌, ◌≢◌, ◌∙◌, refl, ap, arith, Bool, true, false, List, [],
  ◌∷◌, Option, some, ltb, ◌==◌, ◌>>=◌, if◌then◌else◌, Returns, Returns-map, Returns-some, length,
  Bool-cases, inl, inr, lt→ltb,
}
use computer_science.Prelude.Int.{ℤ}
use computer_science.Control.Branches.{same}
use computer_science.Records.{Rec, Store, write, with_val, check_val, set_val}

-- The address is none of these.
abbrev pub Away : ℕ → List (ℕ × Rec) → Type 0
Away a [] = Unit
Away a ((q, r) ∷ rs) = (a ≢ q) × Away a rs

-- From `p` to NULL stand these records, each at its own address and with its index inside `a`.
abbrev pub Links : Store → ℕ → List (ℕ × Rec) → Type 0
Links h p [] = p ≡ 0
Links h p ((q, r) ∷ rs) =
    (p ≡ q) × (q ≢ 0) × (h q ≡ some r) × (r.i < 4) × Away q rs × Links h r.next rs

-- The value that the record's index selects is `val`.
abbrev pub any_val : ℤ → List (ℕ × Rec) → Bool
any_val val [] = false
any_val val ((q, r) ∷ rs) = if same (r.a r.i) val then true else any_val val rs

abbrev pub with_vals : ℤ → List (ℕ × Rec) → List (ℕ × Rec)
with_vals val [] = []
with_vals val ((q, r) ∷ rs) = (q, with_val r r.i val) ∷ with_vals val rs

Links-write :
    (h : Store) (p : ℕ) (rs : List (ℕ × Rec)) (a : ℕ) (c : Option Rec)
    → Away a rs
    → Links h p rs
    → Links (write h a c) p rs
Links-write h p [] a c d e = e
Links-write h p ((q, r) ∷ rs) a c d (here, real, at, fits, once, rest) =
    (here, real, ground arith, fits, once, Links-write h r.next rs a c d.1 rest)

Away-with_vals : (a : ℕ) (val : ℤ) (rs : List (ℕ × Rec)) → Away a rs → Away a (with_vals val rs)
Away-with_vals a val [] d = tt
Away-with_vals a val ((q, r) ∷ rs) d = (d.0, Away-with_vals a val rs d.1)

-- On a list of records `check_val` ends within one pass more than there are records, and finds the
-- value exactly if it is the selected one of some record.
check_val-any_val :
    (fuel : ℕ) (h : Store) (p : ℕ) (rs : List (ℕ × Rec)) (val : ℤ)
    → length rs < fuel
    → Links h p rs
    → check_val fuel h p val ≡ some (any_val val rs)
unfolding check_val
check_val-any_val zero h p rs val f l = absurd (omega arith)
check_val-any_val (suc fuel) h p [] val f l =
    let here : (p == 0) ≡ true = ground (arith, l) in rw here refl
check_val-any_val (suc fuel) h p ((q, r) ∷ rs) val f (here, real, at, fits, once, rest) =
    let more : (q == 0) ≡ false = ground (arith, real) in
    let inside : ltb r.i 4 ≡ true = lt→ltb r.i 4 fits in
    rw (here, at, more)
      (rw inside (elim (Bool-cases (same (r.a r.i) val)) [
        | inl found ↦ rw found refl
        | inr other ↦ rw other (check_val-any_val fuel h r.next rs val (omega arith) rest)
      ]))

-- The list after `set_val`, and the other records as before.
pub record Changed (h : Store) (p : ℕ) (rs : List (ℕ × Rec)) (val : ℤ) (h2 : Store) : Type 0 where
  pub links : Links h2 p (with_vals val rs)
  pub frame : (a : ℕ) → Away a rs → h2 a ≡ h a

pub set_val-Changed :
    (fuel : ℕ) (h : Store) (p : ℕ) (rs : List (ℕ × Rec)) (val : ℤ)
    → length rs < fuel
    → Links h p rs
    → Returns (Changed h p rs val) (set_val fuel h p val)
unfolding set_val
set_val-Changed zero h p rs val f l = absurd (omega arith)
set_val-Changed (suc fuel) h p [] val f l =
    let here : (p == 0) ≡ true = ground (arith, l) in
    rw here (record { links = l; frame = λ a d. refl })
set_val-Changed (suc fuel) h p ((q, r) ∷ rs) val f (here, real, at, fits, once, rest) =
    let more : (q == 0) ≡ false = ground (arith, real) in
    let inside : ltb r.i 4 ≡ true = lt→ltb r.i 4 fits in
    let whole : r.i % 2 ^ 32 ≡ r.i = omega arith in
    let h1 = write h q (some (with_val r r.i val)) in
    rw (here, at, more)
      (rw whole (
        rw inside (
          Returns-map (Changed h1 r.next rs val) (Changed h q ((q, r) ∷ rs) val)
            (set_val fuel h1 r.next val)
            (set_val-Changed fuel h1 r.next rs val (omega arith)
              (Links-write h r.next rs q _ once rest))
            λ h2 c. record {
              links = (
                refl,
                real,
                c.frame q once ∙ written h q r val,
                fits,
                Away-with_vals q val rs once,
                c.links,
              );
              frame = λ a d. c.frame a d.1 ∙ elsewhere h q a r val d.0;
            })))
  where
    written :
        (h : Store) (q : ℕ) (r : Rec) (val : ℤ)
        → write h q (some (with_val r r.i val)) q ≡ some (with_val r r.i val)
    written h q r val = ground arith

    elsewhere :
        (h : Store) (q a : ℕ) (r : Rec) (val : ℤ)
        → a ≢ q
        → write h q (some (with_val r r.i val)) a ≡ h a
    elsewhere h q a r val ne = ground arith

same_refl : (x : ℤ) → same x x ≡ true
same_refl x = ground arith

any_val-head :
    (val : ℤ) (q : ℕ) (r : Rec) (rs : List (ℕ × Rec))
    → any_val val ((q, with_val r r.i val) ∷ rs) ≡ true
any_val-head val q r rs = ground (arith, same_refl val)

length-with_vals : (val : ℤ) (rs : List (ℕ × Rec)) → length (with_vals val rs) ≡ length rs
length-with_vals val [] = refl
length-with_vals val ((q, r) ∷ rs) = ap suc (length-with_vals val rs)

-- After `set_val` on a list that is not empty, `check_val` finds the value.
check_val-set_val :
    (fuel : ℕ) (h : Store) (p q : ℕ) (r : Rec) (rs : List (ℕ × Rec)) (val : ℤ)
    → length rs + 1 < fuel
    → Links h p ((q, r) ∷ rs)
    → (set_val fuel h p val >>= λ h2. check_val fuel h2 p val) ≡ some true
check_val-set_val fuel h p q r rs val f l =
    let (h2, e, c) =
      Returns-some (Changed h p ((q, r) ∷ rs) val) (set_val fuel h p val)
        (set_val-Changed fuel h p ((q, r) ∷ rs) val (omega arith) l) in
    rw e (
      check_val-any_val fuel h2 p (with_vals val ((q, r) ∷ rs)) val
        (omega (arith, length-with_vals val rs)) c.links
      ∙ ap some (any_val-head val q r (with_vals val rs)))
