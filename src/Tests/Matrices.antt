-- ===== src/Tests/Matrices.antt =====
-- mm.c and bmm.c on 5 by 5 arrays of numbers.
use mathlib.Core.Bool.{not}
use computer_science.Prelude.{ℕ, ◌+◌, ◌*◌, ◌≡◌, refl, none, arith, ◌==◌}
use computer_science.Prelude.Loops.{for_range, for_step}
use computer_science.MatMult.{Double, Matrix, init, reset, ijk, jik, ikj, kij, kji, jki, bijk, bikj}
use computer_science.MatMult.Permutations.{loop_orders_agree}
use computer_science.MatMult.Blocked.{blocked_agree}
use computer_science.MatMult.Check.{Comparison, IsExact, checkresult, checkresult-run}

abbrev numbers : Double
numbers = record { D = ℕ; zero = 0; one = 1; add = ◌+◌; mul = ◌*◌ }

abbrev compared : Comparison numbers
compared = record { of_int = λ k. k; ne = λ x y. not (x == y) }

abbrev left : Matrix numbers
left i k = i * 10 + k

abbrev right : Matrix numbers
right k j = k + 2 * j

abbrev dirty : Matrix numbers
dirty i j = 7

-- Row 1, column 2 of the product of the top left 3 by 3 corners, in blocks of 2.
bijk_runs : bijk numbers 3 2 left right dirty 1 2 ≡ 167
unfolding bijk for_range for_step
bijk_runs = refl

loop_orders_agree_example :
    (ikj numbers 5 left right dirty ≡ kij numbers 5 left right dirty)
    × (kij numbers 5 left right dirty ≡ kji numbers 5 left right dirty)
    × (kji numbers 5 left right dirty ≡ jki numbers 5 left right dirty)
    × (ijk numbers 5 left right dirty ≡ jik numbers 5 left right dirty)
loop_orders_agree_example = loop_orders_agree numbers 5 left right dirty

blocked_agree_example :
    (bijk numbers 5 2 left right dirty ≡ kij numbers 5 left right (reset numbers 5 dirty))
    × (bikj numbers 5 2 left right dirty ≡ kij numbers 5 left right (reset numbers 5 dirty))
blocked_agree_example = blocked_agree numbers 5 left right dirty 2 (omega arith)

numbers-IsExact : IsExact numbers compared 5
numbers-IsExact = record { starts = refl; counts = λ k h. refl; same = refl }

checkresult-run_example :
    let (A, B) = init numbers 5 (left, right) in
    (checkresult numbers compared 5 (kij numbers 5 A B (reset numbers 5 dirty)) ≡ none)
    × (checkresult numbers compared 5 (bijk numbers 5 2 A B dirty) ≡ none)
    × (checkresult numbers compared 5 (bikj numbers 5 2 A B dirty) ≡ none)
checkresult-run_example =
    checkresult-run numbers compared 5 numbers-IsExact dirty left right 2 (omega arith)
