-- ===== src/Tests/Loops.antt =====
-- loop.c, control.c and switch.c.
use computer_science.Prelude.{◌≡◌, refl, none, some, arith}
use computer_science.Prelude.Int.{pos, negsuc}
use computer_science.Control.Pcount.{
  pcount_do, pcount_goto, pcount_while, pcount_goto_dw, pcount_goto_jtm, pcount_for,
  pcount_for_goto_dw, pcount_for_goto_jtm, ones, pcounts_agree,
}
use computer_science.Control.Branches.{switch_eg}

pcount_do_runs : pcount_do 0xdead_beef ≡ some 24
unfolding pcount_do
pcount_do_runs = refl

switch_eg_runs : switch_eg (pos 2) (negsuc 6) (pos 2) ≡ some (negsuc 0)
unfolding switch_eg
switch_eg_runs = refl

switch_eg_undefined : switch_eg (pos 2) (pos 1) (pos 0) ≡ none
unfolding switch_eg
switch_eg_undefined = refl

pcounts_agree_example :
    (pcount_do 0xdead_beef ≡ some (ones 64 0xdead_beef))
    × (pcount_goto 0xdead_beef ≡ some (ones 64 0xdead_beef))
    × (pcount_while 0xdead_beef ≡ some (ones 64 0xdead_beef))
    × (pcount_goto_dw 0xdead_beef ≡ some (ones 64 0xdead_beef))
    × (pcount_goto_jtm 0xdead_beef ≡ some (ones 64 0xdead_beef))
    × (pcount_for 0xdead_beef ≡ ones 64 0xdead_beef)
    × (pcount_for_goto_dw 0xdead_beef ≡ some (ones 64 0xdead_beef))
    × (pcount_for_goto_jtm 0xdead_beef ≡ some (ones 64 0xdead_beef))
pcounts_agree_example = pcounts_agree 0xdead_beef (omega arith)
