-- ===== src/Shell.antt =====
-- CMU15-213/15-ecf-signals/shellex.c: the shell. `none` is undefined behaviour: a write in front of
-- `buf` or behind `argv`.
pub mod Words
use computer_science.Prelude.{
  ℕ, zero, suc, ◌+◌, ◌-◌, ◌≡◌, Bool, true, false, List, [], ◌∷◌, ◌++◌, Option, none, some, ◌==◌,
  ltb, leb, ◌>>=◌, if◌then◌else◌, length,
}
use computer_science.Text.{Text, bytes, space, split_at, same_text}

abbrev pub max_args : ℕ
max_args = 128

-- `while (*buf && (*buf == ' ')) buf++;`
unfoldable pub skip_spaces : Text → Text
skip_spaces [] = []
skip_spaces (x ∷ s) = if x == space then skip_spaces s else x ∷ s

-- `while ((delim = strchr(buf, ' ')))`, on fuel: the arguments so far, and the rest of the line. The
-- rest that holds no space is not an argument.
unfoldable pub argv_loop : ℕ → List Text → Text → Option (List Text)
argv_loop zero argv buf = none
argv_loop (suc fuel) argv buf = elim (split_at space buf) [
  | none ↦ some argv
  | some (word, rest) ↦
      if ltb (length argv) max_args
      then argv_loop fuel (argv ++ word ∷ []) (skip_spaces rest)
      else none
]

-- `buf[strlen(buf)-1] = ' '`
unfoldable pub end_with_space : Text → Option Text
end_with_space [] = none
end_with_space (x ∷ []) = some (space ∷ [])
end_with_space (x ∷ y ∷ s) = end_with_space (y ∷ s) >>= λ t. some (x ∷ t)

-- `*argv[argc-1] == '&'`
unfoldable pub is_background : Text → Bool
is_background [] = false
is_background (x ∷ s) = x == b'&'

-- The end of `parseline`, at the arguments found: those that stay, and the result.
unfoldable pub strip_background : List Text → List Text × Bool
strip_background [] = ([], true)
strip_background (w ∷ []) = if is_background w then ([], true) else (w ∷ [], false)
strip_background (w ∷ v ∷ ws) = let (argv, bg) = strip_background (v ∷ ws) in (w ∷ argv, bg)

unfoldable pub parseline : Text → Option (List Text × Bool)
unfolding argv_loop skip_spaces end_with_space strip_background is_background split_at
parseline cmdline = do
  buf ← end_with_space cmdline
  argv ← argv_loop (length buf + 1) [] (skip_spaces buf)
  if ltb (length argv) max_args then some (strip_background argv) else none

-- What `eval` does with a line: nothing, end the shell, or run a job in a child.
pub data Action : Type 0 where
  ignored : Action
  quit : Action
  job : (argv : List Text) (background : Bool) → Action

-- `builtin_command` and the rest of `eval`
unfoldable pub dispatch : List Text × Bool → Action
dispatch ([], bg) = ignored
dispatch (cmd ∷ args, bg) =
    if same_text cmd (bytes "quit")
    then quit
    else (if same_text cmd (bytes "&") then ignored else job (cmd ∷ args) bg)

unfoldable pub eval : Text → Option Action
unfolding parseline dispatch
eval cmdline = parseline cmdline >>= λ parsed. some (dispatch parsed)
