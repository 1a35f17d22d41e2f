-- ===== src/Tests/Linked.antt =====
-- structure.c on a list of two records.
use computer_science.Prelude.{ℕ, ◌+◌, List, [], ◌∷◌, none, some, ◌==◌, if◌then◌else◌}
use computer_science.Prelude.Int.{pos}
use computer_science.Records.{Rec, Store}

abbrev first : Rec
first = record { a = λ k. pos k; i = 1; next = 20 }

abbrev second : Rec
second = record { a = λ k. pos (k + 5); i = 3; next = 0 }

abbrev two : Store
two p = if p == 10 then some first else if p == 20 then some second else none

abbrev listed : List (ℕ × Rec)
listed = (10, first) ∷ (20, second) ∷ []
