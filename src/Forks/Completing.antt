-- ===== src/Forks/Completing.antt =====
-- fork9: what the parent prints after `wait` comes after what the child prints.
use computer_science.Prelude.{
  ℕ, suc, ◌≡◌, refl, arith, List, [], ◌∷◌, ◌++◌, ◌⊎◌, inl, inr, append-nil, append_assoc, sym,
}
use mathlib.Core.Path.{subst}
use computer_science.Forks.Counting.{Halted}
use computer_science.Forks.Ending.{first_step}
use computer_science.Forks.{Line, hc, hp, ct, bye, Prog, print, wait, exit, main, fork9}
use computer_science.Forks.Processes.{
  running, zombie, reaped, Forest, this_one, Step, prints, forks, waits, exits, below, Run, stay,
  alone,
}
use computer_science.Forks.Waiting.{
  Greeted, tell, couple, Shape, alone_yet, forked, hp_first, hc_first, hc_gone, both, both_gone,
  joined, told, leaving, gone, Run-Shape,
}

-- The two orders in which the lines can come.
abbrev pub Told : List Line → Type 0
Told o = (o ≡ hc ∷ hp ∷ ct ∷ bye ∷ []) ⊎ (o ≡ hp ∷ hc ∷ ct ∷ bye ∷ [])

-- After the lines `o` some run leads from `f` to where all have ended, with the lines told.
abbrev pub Completes : List Line → Forest → Type 0
Completes o f =
    (k : ℕ) × (rest : List Line) × (g : Forest) × Run f k rest g × Halted g × Told (o ++ rest)

before :
    {f g : Forest} {l : List Line} (o : List Line)
    → Step f l g
    → Completes (o ++ l) g
    → Completes o f
before {l = l} o st (k, rest, h, r, d, t) =
    (suc k, l ++ rest, h, first_step st r, d, subst Told (append_assoc o l rest) t)

Greeted-Told : {o : List Line} → Greeted o → Told (((o ++ ct ∷ []) ++ bye ∷ []) ++ [])
Greeted-Told (inl e) = rw e (inl refl)
Greeted-Told (inr e) = rw e (inr refl)

leaving-Completes :
    (pid c : ℕ) {o : List Line}
    → Greeted o
    → Completes ((o ++ ct ∷ []) ++ bye ∷ []) (couple pid c (running (exit 0)) reaped)
leaving-Completes pid c {o} g = before ((o ++ ct ∷ []) ++ bye ∷ []) exits (
  0,
  [],
  _,
  stay,
  (tt, (tt, tt, tt), tt),
  subst (λ x. Told (x ++ [])) (sym (append-nil _)) (Greeted-Told g),
)

told-Completes :
    (pid c : ℕ) {o : List Line}
    → Greeted o
    → Completes (o ++ ct ∷ []) (couple pid c (running (print bye (exit 0))) reaped)
told-Completes pid c {o} g = before (o ++ ct ∷ []) prints (leaving-Completes pid c g)

joined-Completes :
    (pid c : ℕ) {o : List Line} → Greeted o → Completes o (couple pid c (running tell) reaped)
joined-Completes pid c {o} g = before o prints (told-Completes pid c g)

both_gone-Completes :
    (pid c : ℕ) {o : List Line}
    → Greeted o
    → Completes o (couple pid c (running (wait λ w s. tell)) (zombie 0))
both_gone-Completes pid c {o} g =
    before o (waits this_one) (rw (append-nil o) (joined-Completes pid c g))

both-Completes :
    (pid c : ℕ) {o : List Line}
    → Greeted o
    → Completes o (couple pid c (running (wait λ w s. tell)) (running (exit 0)))
both-Completes pid c {o} g =
    before o (below exits) (rw (append-nil o) (both_gone-Completes pid c g))

hp_first-Completes :
    (pid c : ℕ)
    → Completes (hp ∷ []) (couple pid c (running (wait λ w s. tell)) (running (print hc (exit 0))))
hp_first-Completes pid c = before (hp ∷ []) (below prints) (both-Completes pid c (inr refl))

forked-Completes :
    (pid c : ℕ)
    → Completes []
        (couple pid c (running (print hp (wait λ w s. tell))) (running (print hc (exit 0))))
forked-Completes pid c = before [] prints (hp_first-Completes pid c)

alone-Completes : (pid : ℕ) → Completes [] (alone pid (fork9 (exit 0)))
unfolding fork9
alone-Completes pid = before [] (forks 1 (omega arith)) (forked-Completes pid 1)

Shape-Completes : (pid : ℕ) {o : List Line} {f : Forest} → Shape pid o f → Completes o f
Shape-Completes pid alone_yet = alone-Completes pid
Shape-Completes pid (forked c) = forked-Completes pid c
Shape-Completes pid (hp_first c) = hp_first-Completes pid c
Shape-Completes pid (hc_first c) = before (hc ∷ []) prints (both-Completes pid c (inl refl))
Shape-Completes pid (hc_gone c) = before (hc ∷ []) prints (both_gone-Completes pid c (inl refl))
Shape-Completes pid (both c g) = both-Completes pid c g
Shape-Completes pid (both_gone c g) = both_gone-Completes pid c g
Shape-Completes pid (joined c g) = joined-Completes pid c g
Shape-Completes pid (told c g) = told-Completes pid c g
Shape-Completes pid (leaving c g) = leaving-Completes pid c g
Shape-Completes pid (gone c g) = (0, [], _, stay, (tt, (tt, tt, tt), tt), Greeted-Told g)

-- For option 9, in every interleaving and whatever number the child gets, what has been printed can be
-- completed, by some run to the end of both processes, to one of two outputs: the greetings of child
-- and parent in either order, then that the child has terminated, then a single Bye. So nothing else
-- is ever printed, the parent does not wait for ever, and it never reports the child before its greeting.
pub main-Completes :
    (signals : ℕ → Prog → Prog) (pid k : ℕ) (o : List Line) (g : Forest)
    → Run (alone pid (main signals 9)) k o g
    → Completes o g
unfolding main
main-Completes signals pid k o g r = Shape-Completes pid (Run-Shape pid alone_yet r)
