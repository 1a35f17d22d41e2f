-- ===== src/Races/Numbers.antt =====
-- Every thread prints the number of its own round.
use computer_science.Prelude.{
  ℕ, ◌+◌, ◌≤◌, ◌<◌, ◌≡◌, ◌≢◌, ◌∙◌, refl, sym, ap, arith, inl, inr, ◌⊎◌, List, [], ◌∷◌, Option, none,
  some, ◌==◌, ==_iff, ltb, if◌then◌else◌, Bool-cases,
}
use mathlib.Core.Path.{subst}
use mathlib.Core.Option.{some-injective, some-ne-none}
use computer_science.Races.{
  Thread, waiting, created, numbered, freed, ended, System, put, set, Step, create, read_id, free,
  print, Reach, fresh, next,
}

abbrev pub count : ℕ → List ℕ → ℕ
count x [] = 0
count x (y ∷ ys) = (if y == x then 1 else 0) + count x ys

-- How often a thread has printed
abbrev prints : Thread → ℕ
prints ended = 1
prints t = 0

-- What a thread holds: its memory has its number, until it is freed.
abbrev Holds : System → ℕ → Thread → Type 0
Holds s k waiting = s.i ≤ k
Holds s k (created p) = (k < s.i) × (s.cells p ≡ some k)
Holds s k (numbered p v) = (k < s.i) × (v ≡ k) × (s.cells p ≡ some k)
Holds s k (freed v) = (k < s.i) × (v ≡ k)
Holds s k ended = k < s.i

record Numbered (n : ℕ) (s : System) : Type 0 where
  rounds : s.i ≤ n
  holds : (k : ℕ) → Holds s k (s.threads k)
  counts : (k : ℕ) → count k s.printed ≡ prints (s.threads k)

-- A thread keeps what it holds in a state with its memory.
Holds-keep :
    (s t : System) (k : ℕ) (th : Thread)
    → s.i ≤ t.i
    → (s.i ≤ k → t.i ≤ k)
    → ((p : ℕ) → s.cells p ≡ some k → t.cells p ≡ some k)
    → Holds s k th
    → Holds t k th
Holds-keep s t k waiting le stay keep h = stay h
Holds-keep s t k (created p) le stay keep (lt, c) = (omega (arith, le, lt), keep p c)
Holds-keep s t k (numbered p v) le stay keep (lt, own, c) = (omega (arith, le, lt), own, keep p c)
Holds-keep s t k (freed v) le stay keep (lt, own) = (omega (arith, le, lt), own)
Holds-keep s t k ended le stay keep lt = omega (arith, le, lt)

put_here : (cells : ℕ → Option ℕ) (p : ℕ) (c : Option ℕ) → put cells p c p ≡ c
put_here cells p c = ground arith

put_away : (cells : ℕ → Option ℕ) (p q : ℕ) (c : Option ℕ) → p ≢ q → put cells p c q ≡ cells q
put_away cells p q c ne = ground arith

-- Memory with another number, or none, is elsewhere.
put_keeps :
    (cells : ℕ → Option ℕ) (p q j : ℕ) (c : Option ℕ)
    → cells p ≢ some j
    → cells q ≡ some j
    → put cells p c q ≡ some j
put_keeps cells p q j c ne e = put_away cells p q c (λ same. ne (ap cells same ∙ e)) ∙ e

unprinted : (s : System) (k : ℕ) (th : Thread) → s.i ≤ k → Holds s k th → prints th ≡ 0
unprinted s k waiting le h = refl
unprinted s k (created p) le h = refl
unprinted s k (numbered p v) le h = refl
unprinted s k (freed v) le h = refl
unprinted s k ended le h = absurd (omega (arith, le, h))

-- Every thread but one is as before.
each :
    (Q : ℕ → Thread → Type 0) (threads : ℕ → Thread) (k : ℕ) (th : Thread)
    → Q k th
    → ((j : ℕ) → k ≢ j → Q j (threads j))
    → (j : ℕ) → Q j (set threads k th j)
each Q threads k th here away j = elim (Bool-cases (k == j)) [
  | inl same ↦ rw same (subst (λ (m : ℕ). Q m th) ((==_iff k j).0 same) here)
  | inr other ↦ rw other (away j (ground (arith, other)))
]

-- A thread that goes on to another line without a print.
counts-set :
    (s : System) (k : ℕ) (th : Thread)
    → ((j : ℕ) → count j s.printed ≡ prints (s.threads j))
    → prints (s.threads k) ≡ 0
    → prints th ≡ 0
    → (j : ℕ) → count j s.printed ≡ prints (set s.threads k th j)
counts-set s k th counts before after =
    each (λ j u. count j s.printed ≡ prints u) s.threads k th (counts k ∙ before ∙ sym after)
      (λ j ne. counts j)

count_here : (k v : ℕ) (vs : List ℕ) → v ≡ k → count k vs ≡ 0 → count k (v ∷ vs) ≡ 1
count_here k v vs e none_yet = ground (arith, e, none_yet)

count_away : (k j v : ℕ) (vs : List ℕ) → v ≡ k → k ≢ j → count j (v ∷ vs) ≡ count j vs
count_away k j v vs e ne = ground (arith, e, ne)

Step-Numbered : {n : ℕ} {s t : System} → Step n s t → Numbered n s → Numbered n t
Step-Numbered {n} {s} (create ptr lt unused e) c =
    let t2 : System = record s {
      i = s.i + 1;
      cells = put s.cells ptr (some s.i);
      threads = set s.threads s.i (created ptr);
    } in
    rw e (record {
      rounds = omega (arith, lt);
      holds =
          each (Holds t2) s.threads s.i (created ptr) (omega arith, put_here s.cells ptr (some s.i))
            (λ j ne.
              Holds-keep s t2 j (s.threads j) (omega arith) (λ le. omega (arith, le, ne))
                (λ p here.
                  put_keeps s.cells ptr p j (some s.i) (λ z. some-ne-none _ (sym z ∙ unused)) here)
                (c.holds j));
      counts =
          counts-set s s.i (created ptr) c.counts
            (unprinted s s.i (s.threads s.i) (omega arith) (c.holds s.i)) refl;
    })
Step-Numbered {n} {s} (read_id k p v at_line cell e) c =
    let held : Holds s k (created p) = rw at_line at (c.holds k) in
    let t2 : System = record s { threads = set s.threads k (numbered p v) } in
    rw e (record {
      rounds = c.rounds;
      holds =
          each (Holds t2) s.threads k (numbered p v)
            (held.0, some-injective _ _ (sym cell ∙ held.1), held.1) (λ j ne. c.holds j);
      counts = counts-set s k (numbered p v) c.counts (ap prints at_line) refl;
    })
Step-Numbered {n} {s} (free k p v value at_line cell e) c =
    let held : Holds s k (numbered p v) = rw at_line at (c.holds k) in
    let t2 : System = record s {
      cells = put s.cells p none;
      threads = set s.threads k (freed v);
    } in
    rw e (record {
      rounds = c.rounds;
      holds =
          each (Holds t2) s.threads k (freed v) (held.0, held.1)
            (λ j ne.
              Holds-keep s t2 j (s.threads j) (omega arith) (λ le. le)
                (λ q here.
                  put_keeps s.cells p q j none (λ z. ne (some-injective _ _ (sym held.2 ∙ z))) here)
                (c.holds j));
      counts = counts-set s k (freed v) c.counts (ap prints at_line) refl;
    })
Step-Numbered {n} {s} (print k v at_line e) c =
    let held : Holds s k (freed v) = rw at_line at (c.holds k) in
    let t2 : System = record s { threads = set s.threads k ended; printed = v ∷ s.printed } in
    rw e (record {
      rounds = c.rounds;
      holds = each (Holds t2) s.threads k ended held.0 (λ j ne. c.holds j);
      counts =
          each (λ j u. count j (v ∷ s.printed) ≡ prints u) s.threads k ended
            (count_here k v s.printed held.1 (c.counts k ∙ ap prints at_line))
            (λ j ne. count_away k j v s.printed held.1 ne ∙ c.counts j);
    })

Reach-Numbered : {n : ℕ} {s : System} → Reach n s → Numbered n s
Reach-Numbered fresh = record { rounds = omega arith; holds = λ k. omega arith; counts = λ k. refl }
Reach-Numbered (next r st) = Step-Numbered st (Reach-Numbered r)

-- In every interleaving of norace.c, when `main` has created its `n` threads and all of them have ended,
-- each of the numbers below `n` has been printed once, and nothing else.
pub Reach-printed :
    {n : ℕ} {s : System}
    → Reach n s
    → s.i ≡ n
    → ((k : ℕ) → k < n → s.threads k ≡ ended)
    → (k : ℕ) → count k s.printed ≡ (if ltb k n then 1 else 0)
Reach-printed {n} {s} r all_created all_ended k =
    let c = Reach-Numbered r in
    elim (Bool-cases (ltb k n)) [
      | inl below ↦ rw below (c.counts k ∙ ap prints (all_ended k (ground (arith, below))))
      | inr above ↦ rw above (
          c.counts k ∙ unprinted s k (s.threads k) (ground (arith, above, all_created)) (c.holds k))
    ]

-- How many lines a thread has run
abbrev pub line : Thread → ℕ
line waiting = 0
line (created p) = 1
line (numbered p v) = 2
line (freed v) = 3
line ended = 4

-- A thread can run its next line.
abbrev pub CanRun : ℕ → System → ℕ → Type 0
CanRun n s k = (t : System) × Step n s t × (line (t.threads k) ≡ line (s.threads k) + 1)

line-set :
    (threads : ℕ → Thread) (k : ℕ) (old th : Thread)
    → threads k ≡ old
    → line th ≡ line old + 1
    → line (set threads k th k) ≡ line (threads k) + 1
line-set threads k old th e up =
    each (λ j u. k ≡ j → line u ≡ line (threads k) + 1) threads k th
      (λ same. up ∙ ap (λ (u : Thread). line u + 1) (sym e)) (λ j ne same. absurd (ne same)) k refl

Holds-CanRun :
    (n : ℕ) (s : System) (k : ℕ) (th : Thread)
    → k < s.i
    → s.threads k ≡ th
    → Holds s k th
    → (th ≡ ended) ⊎ CanRun n s k
Holds-CanRun n s k waiting lt e h = absurd (omega (arith, lt, h))
Holds-CanRun n s k (created p) lt e h =
    inr (_, read_id k p k e h.1 refl, line-set s.threads k (created p) (numbered p k) e refl)
Holds-CanRun n s k (numbered p v) lt e h =
    inr (_, free k p v k e h.2 refl, line-set s.threads k (numbered p v) (freed v) e refl)
Holds-CanRun n s k (freed v) lt e h =
    inr (_, print k v e refl, line-set s.threads k (freed v) ended e refl)
Holds-CanRun n s k ended lt e h = inl refl

-- In every interleaving of norace.c, every thread that is created has ended or can run its next line: the
-- memory with its number is there when it reads it, and when it frees it.
Reach-CanRun :
    {n : ℕ} {s : System} → Reach n s → (k : ℕ) → k < s.i → (s.threads k ≡ ended) ⊎ CanRun n s k
Reach-CanRun {n} {s} r k lt = Holds-CanRun n s k (s.threads k) lt refl ((Reach-Numbered r).holds k)
