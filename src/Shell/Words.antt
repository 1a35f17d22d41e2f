-- ===== src/Shell/Words.antt =====
-- `parseline` against the words of the line.
use computer_science.Prelude.{
  ℕ, zero, suc, ◌+◌, ◌<◌, ◌≤◌, ◌≡◌, ◌∙◌, ◌⊎◌, inl, inr, refl, ap, Bool, true, false, ◌==◌, ==_iff,
  Bool-cases, Returns, List, [], ◌∷◌, ◌++◌, none, some, ltb, arith, length, append_assoc,
  length-append, lt→ltb, replicate,
}
use mathlib.Core.List.{head-eq_of_cons-eq}
use computer_science.Text.{Text, space, newline, split_at, lacks, split_at-append, split_at-nil}
use computer_science.Shell.{
  skip_spaces, argv_loop, end_with_space, is_background, strip_background, parseline, max_args,
}

-- A word of a command line has at least one byte, and no space.
abbrev pub IsWord : Text → Type 0
IsWord w = (0 < length w) × (lacks space w ≡ true)

abbrev pub AllWords : List Text → Type 0
AllWords [] = Unit
AllWords (w ∷ ws) = IsWord w × AllWords ws

-- What stands behind a word: words, each behind a space and as many more as its number says, and
-- `after` spaces at the end.
abbrev pub behind : List (ℕ × Text) → ℕ → Text
behind [] after = replicate after space
behind ((more, w) ∷ ws) after = space ∷ (replicate more space ++ (w ++ behind ws after))

abbrev pub words_of : List (ℕ × Text) → List Text
words_of [] = []
words_of ((more, w) ∷ ws) = w ∷ words_of ws

skip_spaces-word :
    (n : ℕ) (w s : Text) → IsWord w → skip_spaces (replicate n space ++ (w ++ s)) ≡ w ++ s
unfolding skip_spaces lacks
skip_spaces-word zero [] s h = absurd (omega arith)
skip_spaces-word zero (x ∷ w) s h = ground arith
skip_spaces-word (suc n) w s h = skip_spaces-word n w s h

skip_spaces-end : (n : ℕ) → skip_spaces (replicate n space) ≡ []
unfolding skip_spaces
skip_spaces-end zero = refl
skip_spaces-end (suc n) = skip_spaces-end n

replicate-space : (n : ℕ) → replicate n space ++ space ∷ [] ≡ space ∷ replicate n space
replicate-space zero = refl
replicate-space (suc n) = ap (◌∷◌ space) (replicate-space n)

module _ (fuel : ℕ) (argv : List Text) (buf : Text) where
  argv_loop-step :
      (word rest : Text)
      → split_at space buf ≡ some (word, rest)
      → length argv < max_args
      → argv_loop (suc fuel) argv buf ≡ argv_loop fuel (argv ++ word ∷ []) (skip_spaces rest)
  unfolding argv_loop
  argv_loop-step word rest e room =
      let fits : ltb (length argv) max_args ≡ true = lt→ltb (length argv) max_args room in
      rw (e, argv_loop) (rw fits refl)

  argv_loop-done : split_at space buf ≡ none → argv_loop (suc fuel) argv buf ≡ some argv
  unfolding argv_loop
  argv_loop-done e = rw (e, argv_loop) refl

-- The loop finds the words of a line whose newline has become a space.
argv_loop-words :
    (fuel : ℕ) (argv : List Text) (w : Text) (ws : List (ℕ × Text)) (after : ℕ)
    → IsWord w
    → AllWords (words_of ws)
    → length ws + 1 < fuel
    → length argv + length ws < max_args
    → argv_loop fuel argv (w ++ (behind ws after ++ space ∷ [])) ≡ some (argv ++ w ∷ words_of ws)
argv_loop-words zero argv w ws after h hs f room = absurd (omega arith)
argv_loop-words (suc zero) argv w ws after h hs f room = absurd (omega arith)
argv_loop-words (suc (suc fuel)) argv w [] after h hs f room = rw (replicate-space after) (
    argv_loop-step (suc fuel) argv (w ++ space ∷ replicate after space) w (replicate after space)
      (split_at-append space w (replicate after space) h.1) (omega arith)
    ∙ rw (skip_spaces-end after) (argv_loop-done fuel (argv ++ w ∷ []) [] (split_at-nil space)))
argv_loop-words (suc (suc fuel)) argv w ((more, v) ∷ ws) after h hs f room =
    let rest = v ++ (behind ws after ++ space ∷ []) in
    let shape : behind ((more, v) ∷ ws) after ++ space ∷ []
        ≡ space ∷ (replicate more space ++ rest) =
      ap (◌∷◌ space) (
        append_assoc (replicate more space) (v ++ behind ws after) (space ∷ [])
        ∙ ap (λ (t : Text). replicate more space ++ t)
            (append_assoc v (behind ws after) (space ∷ []))) in
    let size : length (argv ++ w ∷ []) ≡ length argv + 1 = length-append argv (w ∷ []) in
    rw shape (
      argv_loop-step (suc fuel) argv (w ++ space ∷ (replicate more space ++ rest)) w
        (replicate more space ++ rest) (split_at-append space w (replicate more space ++ rest) h.1)
        (omega arith)
      ∙ rw (skip_spaces-word more v (behind ws after ++ space ∷ []) hs.0) (
          argv_loop-words (suc fuel) (argv ++ w ∷ []) v ws after hs.0 hs.1 (omega arith)
            (omega arith)
          ∙ ap some (append_assoc argv (w ∷ []) (v ∷ words_of ws))))

end_with_space-newline : (s : Text) → end_with_space (s ++ newline ∷ []) ≡ some (s ++ space ∷ [])
unfolding end_with_space
end_with_space-newline [] = refl
end_with_space-newline (x ∷ []) = refl
end_with_space-newline (x ∷ y ∷ s) = rw (end_with_space-newline (y ∷ s)) refl

length-words_of : (ws : List (ℕ × Text)) → length (words_of ws) ≡ length ws
length-words_of [] = refl
length-words_of ((more, w) ∷ ws) = ap suc (length-words_of ws)

-- Each word takes at least a byte of the line.
length-behind :
    (w : Text) (ws : List (ℕ × Text)) (after : ℕ)
    → IsWord w
    → AllWords (words_of ws)
    → length ws + 1 ≤ length (w ++ behind ws after)
length-behind w [] after h hs = omega (arith, length-append w (replicate after space))
length-behind w ((more, v) ∷ ws) after h hs = omega (
  arith,
  length-append w (behind ((more, v) ∷ ws) after),
  length-append (replicate more space) (v ++ behind ws after),
  length-behind v ws after hs.0 hs.1,
)

-- `parseline` finds the words, and passes them to its last lines.
parseline-stripped :
    (before : ℕ) (w : Text) (ws : List (ℕ × Text)) (after : ℕ)
    → AllWords (w ∷ words_of ws)
    → length ws + 1 < max_args
    → parseline (replicate before space ++ (w ++ behind ws after) ++ newline ∷ [])
      ≡ some (strip_background (w ∷ words_of ws))
unfolding parseline
parseline-stripped before w ws after h room =
    let typed = replicate before space ++ (w ++ behind ws after) in
    let line = w ++ (behind ws after ++ space ∷ []) in
    let shape : typed ++ space ∷ [] ≡ replicate before space ++ line =
      append_assoc (replicate before space) (w ++ behind ws after) (space ∷ [])
      ∙ ap (λ (t : Text). replicate before space ++ t)
          (append_assoc w (behind ws after) (space ∷ [])) in
    let fits : ltb (length (w ∷ words_of ws)) max_args ≡ true =
      lt→ltb _ _ (omega (arith, length-words_of ws)) in
    let long : length ws + 1 < length (typed ++ space ∷ []) + 1 = omega (
      arith,
      length-append typed (space ∷ []),
      length-append (replicate before space) (w ++ behind ws after),
      length-behind w ws after h.0 h.1,
    ) in
    rw (end_with_space-newline typed) (
      rw shape (
        rw (skip_spaces-word before w (behind ws after ++ space ∷ []) h.0) (
          rw
            (argv_loop-words (length (replicate before space ++ line) + 1) [] w ws after h.0 h.1
              (rw (← shape) long) (omega arith))
            (rw fits refl))))

-- `b'&'` begins the word.
abbrev IsMark : Text → Type 0
IsMark w = (s : Text) × (w ≡ b'&' ∷ s)

-- What the arguments and the result are for the words of a line: with a mark as the last word, those in
-- front of it and a background job; without one, all and a job in the foreground.
abbrev pub Marked : List Text → List Text × Bool → Type 0
Marked words (argv, bg) =
    ((bg ≡ true) × ((mark : Text) × IsMark mark × (words ≡ argv ++ mark ∷ [])))
    ⊎ ((bg ≡ false)
        × (argv ≡ words)
        × ((front : List Text) × (last : Text) × (words ≡ front ++ last ∷ []) × ¬ (IsMark last)))

other_head : (x : ℕ) (s t : Text) → (x == b'&') ≡ false → x ∷ s ≡ b'&' ∷ t → ⊥
other_head x s t other e = absurd (ground (arith, other, head-eq_of_cons-eq e))

is_background-IsMark :
    (w : Text)
    → IsWord w
    → ((is_background w ≡ true) × IsMark w) ⊎ ((is_background w ≡ false) × ¬ (IsMark w))
unfolding is_background
is_background-IsMark [] h = absurd (omega arith)
is_background-IsMark (x ∷ s) h = elim (Bool-cases (x == b'&')) [
  | inl same ↦ inl (same, (s, ap (λ (y : ℕ). y ∷ s) ((==_iff x b'&').0 same)))
  | inr other ↦ inr (other, λ (t, e). other_head x s t other e)
]

strip_background-Marked :
    (w : Text) (ws : List Text) → AllWords (w ∷ ws) → Marked (w ∷ ws) (strip_background (w ∷ ws))
unfolding strip_background
strip_background-Marked w [] (h, all) = elim (is_background-IsMark w h) [
  | inl (e, mark) ↦ rw e (inl (refl, (w, mark, refl)))
  | inr (e, plain) ↦ rw e (inr (refl, refl, ([], w, refl, plain)))
]
strip_background-Marked w (v ∷ ws) (h, all) = elim (strip_background-Marked v ws all) [
  | inl (bg, (mark, m, e)) ↦ inl (bg, (mark, m, ap (◌∷◌ w) e))
  | inr (bg, same, (front, last, e, plain)) ↦
      inr (bg, ap (◌∷◌ w) same, (w ∷ front, last, ap (◌∷◌ w) e, plain))
]

-- A line of one to 127 words and a newline, with any number of spaces in front of the words, between
-- and behind them, is taken apart into exactly these words. If the last one begins with `&`, it is left
-- out, and the result says that the job runs in the background; otherwise all stay, and it does not.
pub parseline-words :
    (before : ℕ) (w : Text) (ws : List (ℕ × Text)) (after : ℕ)
    → AllWords (w ∷ words_of ws)
    → length ws + 1 < max_args
    → Returns
        (Marked (w ∷ words_of ws))
        (parseline (replicate before space ++ (w ++ behind ws after) ++ newline ∷ []))
parseline-words before w ws after h room =
    rw (parseline-stripped before w ws after h room) (strip_background-Marked w (words_of ws) h)
