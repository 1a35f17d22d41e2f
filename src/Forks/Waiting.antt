-- ===== src/Forks/Waiting.antt =====
-- fork9: the states that a parent and a child pass through, with what has been printed.
use computer_science.Prelude.{
  ℕ, ◌≡◌, refl, arith, List, [], ◌∷◌, ◌++◌, ◌==◌, false, ◌⊎◌, inl, inr, append-nil,
}
use computer_science.Forks.{Line, hc, hp, ct, bye, Prog, print, wait, exit, fork9}
use computer_science.Forks.Processes.{
  Status, running, zombie, reaped, Forest, nobody, process, Reaps, this_one, older, Step, prints,
  forks, waits, exits, below, beside, Run, stay, then_step, alone,
}

-- Both have greeted.
abbrev pub Greeted : List Line → Type 0
Greeted o = (o ≡ hc ∷ hp ∷ []) ⊎ (o ≡ hp ∷ hc ∷ [])

abbrev pub tell : Prog
tell = print ct (print bye (exit 0))

-- A parent and its child.
abbrev pub couple : ℕ → ℕ → Status → Status → Forest
couple pid c parent child = process pid [] parent (process c [] child nobody nobody) nobody

pub data Shape (pid : ℕ) : List Line → Forest → Type 0 where
  alone_yet : Shape pid [] (alone pid (fork9 (exit 0)))
  forked :
      (c : ℕ)
      → Shape pid []
          (couple pid c (running (print hp (wait λ w s. tell))) (running (print hc (exit 0))))
  hp_first :
      (c : ℕ)
      → Shape pid
          (hp ∷ [])
          (couple pid c (running (wait λ w s. tell)) (running (print hc (exit 0))))
  hc_first :
      (c : ℕ)
      → Shape pid
          (hc ∷ [])
          (couple pid c (running (print hp (wait λ w s. tell))) (running (exit 0)))
  hc_gone :
      (c : ℕ)
      → Shape pid (hc ∷ []) (couple pid c (running (print hp (wait λ w s. tell))) (zombie 0))
  both :
      (c : ℕ) {o : List Line}
      → Greeted o
      → Shape pid o (couple pid c (running (wait λ w s. tell)) (running (exit 0)))
  both_gone :
      (c : ℕ) {o : List Line}
      → Greeted o
      → Shape pid o (couple pid c (running (wait λ w s. tell)) (zombie 0))
  joined : (c : ℕ) {o : List Line} → Greeted o → Shape pid o (couple pid c (running tell) reaped)
  told :
      (c : ℕ) {o : List Line}
      → Greeted o
      → Shape pid (o ++ ct ∷ []) (couple pid c (running (print bye (exit 0))) reaped)
  leaving :
      (c : ℕ) {o : List Line}
      → Greeted o
      → Shape pid ((o ++ ct ∷ []) ++ bye ∷ []) (couple pid c (running (exit 0)) reaped)
  gone :
      (c : ℕ) {o : List Line}
      → Greeted o
      → Shape pid ((o ++ ct ∷ []) ++ bye ∷ []) (couple pid c (zombie 0) reaped)

-- A child that runs is not reaped; one that does not run makes no step.
no_reap :
    {c w n : ℕ} {p : Prog} {g : Forest} → Reaps (process c [] (running p) nobody nobody) w n g → ⊥
no_reap (older r) = elim r [ ]

no_step_zombie :
    {c n : ℕ} {l : List Line} {g : Forest} → Step (process c [] (zombie n) nobody nobody) l g → ⊥
no_step_zombie (below st) = elim st [ ]
no_step_zombie (beside st) = elim st [ ]

no_step_reaped :
    {c : ℕ} {l : List Line} {g : Forest} → Step (process c [] reaped nobody nobody) l g → ⊥
no_step_reaped (below st) = elim st [ ]
no_step_reaped (beside st) = elim st [ ]

-- The child of a shape, by what it does.
child_says :
    {c : ℕ} {l : List Line} {g : Forest} {x : Line} {p : Prog}
    → Step (process c [] (running (print x p)) nobody nobody) l g
    → (l ≡ x ∷ []) × (g ≡ process c [] (running p) nobody nobody)
child_says prints = (refl, refl)
child_says (below st) = elim st [ ]
child_says (beside st) = elim st [ ]

child_exits :
    {c n : ℕ} {l : List Line} {g : Forest}
    → Step (process c [] (running (exit n)) nobody nobody) l g
    → (l ≡ []) × (g ≡ process c [] (zombie n) nobody nobody)
child_exits exits = (refl, refl)
child_exits (below st) = elim st [ ]
child_exits (beside st) = elim st [ ]

Step-Shape :
    (pid : ℕ) {o l : List Line} {f g : Forest} → Shape pid o f → Step f l g → Shape pid (o ++ l) g
unfolding fork9
Step-Shape pid alone_yet (forks c h) =
    let ne : (c == 0) ≡ false = ground (arith, h) in rw ne (forked c)
Step-Shape pid alone_yet (below st) = elim st [ ]
Step-Shape pid alone_yet (beside st) = elim st [ ]
Step-Shape pid (forked c) prints = hp_first c
Step-Shape pid (forked c) (below st) = let (e, e') = child_says st in rw (e, e') (hc_first c)
Step-Shape pid (forked c) (beside st) = elim st [ ]
Step-Shape pid (hp_first c) (waits r) = absurd (no_reap r)
Step-Shape pid (hp_first c) (below st) =
    let (e, e') = child_says st in rw (e, e') (both c (inr refl))
Step-Shape pid (hp_first c) (beside st) = elim st [ ]
Step-Shape pid (hc_first c) prints = both c (inl refl)
Step-Shape pid (hc_first c) (below st) = let (e, e') = child_exits st in rw (e, e') (hc_gone c)
Step-Shape pid (hc_first c) (beside st) = elim st [ ]
Step-Shape pid (hc_gone c) prints = both_gone c (inl refl)
Step-Shape pid (hc_gone c) (below st) = absurd (no_step_zombie st)
Step-Shape pid (hc_gone c) (beside st) = elim st [ ]
Step-Shape pid (both c g) (waits r) = absurd (no_reap r)
Step-Shape pid {o = o} (both c g) (below st) =
    let (e, e') = child_exits st in rw (e, e', append-nil o) (both_gone c g)
Step-Shape pid (both c g) (beside st) = elim st [ ]
Step-Shape pid {o = o} (both_gone c g) (waits this_one) = rw (append-nil o) (joined c g)
Step-Shape pid (both_gone c g) (waits (older r)) = elim r [ ]
Step-Shape pid (both_gone c g) (below st) = absurd (no_step_zombie st)
Step-Shape pid (both_gone c g) (beside st) = elim st [ ]
Step-Shape pid (joined c g) prints = told c g
Step-Shape pid (joined c g) (below st) = absurd (no_step_reaped st)
Step-Shape pid (joined c g) (beside st) = elim st [ ]
Step-Shape pid (told c g) prints = leaving c g
Step-Shape pid (told c g) (below st) = absurd (no_step_reaped st)
Step-Shape pid (told c g) (beside st) = elim st [ ]
Step-Shape pid {o = o} (leaving c g) exits = rw (append-nil o) (gone c g)
Step-Shape pid (leaving c g) (below st) = absurd (no_step_reaped st)
Step-Shape pid (leaving c g) (beside st) = elim st [ ]
Step-Shape pid (gone c g) (below st) = absurd (no_step_reaped st)
Step-Shape pid (gone c g) (beside st) = elim st [ ]

pub Run-Shape :
    (pid : ℕ) {f : Forest} {k : ℕ} {o : List Line} {g : Forest}
    → Shape pid [] f
    → Run f k o g
    → Shape pid o g
Run-Shape pid s stay = s
Run-Shape pid s (then_step r st) = Step-Shape pid (Run-Shape pid s r) st
