-- ===== src/Sbuf/Channel.antt =====
-- What a client may use of the buffer: calls that put and take items, and their laws.
use computer_science.Prelude.{ℕ, ◌≤◌, ◌≡◌, refl, List, [], ◌∷◌, ◌++◌, length}
use computer_science.Prelude.Int.{ℤ}
use computer_science.Sbuf.{System, Step, Reach, start, fresh, sbuf_init}
use computer_science.Sbuf.Queue.{contents, contents-insert, contents-remove, length-contents}

pub record Channel (n : ℕ) : Type 1 where
  pub State : Type 0
  pub created : State
  pub Insert : ℤ → State → State → Type 0
  pub Remove : ℤ → State → State → Type 0
  pub items : State → List ℤ
  pub items-created : items created ≡ []
  pub items-insert : {x : ℤ} {s t : State} → Insert x s t → items t ≡ items s ++ x ∷ []
  pub items-remove : {x : ℤ} {s t : State} → Remove x s t → items s ≡ x ∷ items t
  pub length-items : (s : State) → length (items s) ≤ n

-- Any number of lines, of any threads
pub data Runs (s : System) : System → Type 0 where
  stop : Runs s s
  run : {t u : System} → Runs s t → Step t u → Runs s u

-- A call of sbuf_insert that writes `x`, and one of sbuf_remove that reads it, among the lines of other
-- calls that are before their write or read, or behind it.
abbrev pub Inserts : ℤ → System → System → Type 0
Inserts x s t = Runs s t × (t.inserted ≡ s.inserted ++ x ∷ []) × (t.removed ≡ s.removed)

abbrev pub Removes : ℤ → System → System → Type 0
Removes x s t = Runs s t × (t.inserted ≡ s.inserted) × (t.removed ≡ s.removed ++ x ∷ [])

pub contents-start : (n : ℕ) → contents (start n) ≡ []
unfolding contents sbuf_init
contents-start n = refl

-- The buffer of sbuf.c
abbrev pub sbuf_channel : (n : ℕ) → Channel n
sbuf_channel n = record {
  State = (s : System) × Reach n s;
  created = (start n, fresh);
  Insert = λ x s t. Inserts x s.0 t.0;
  Remove = λ x s t. Removes x s.0 t.0;
  items = λ s. contents s.0;
  items-created = contents-start n;
  items-insert = λ {x} {s} {t} h. contents-insert x s.1 t.1 h.1 h.2;
  items-remove = λ {x} {s} {t} h. contents-remove x s.1 t.1 h.1 h.2;
  length-items = λ s. length-contents s.1;
}
