-- ===== src/Swap/Tests.antt =====
-- A present user page (flags P, W, U) that goes to swap block 3.
use xv6_fork.Prelude.{◌≡◌, refl, arith, false}
use xv6_fork.Swap.{swapped_out, swapin_helper, pgintr, kills}
use xv6_fork.Swap.Entry.{pgintr-swapped_out, swapin_helper-zero}

user_entry : swapped_out 0x00123007 3 ≡ 0x3000
unfolding swapped_out
user_entry = refl

pgintr-swapped_out_example : pgintr (swapped_out 0x00123007 3) false ≡ kills
pgintr-swapped_out_example = pgintr-swapped_out 0x00123007 3 false (omega arith) (omega arith) refl

swapin_helper-zero_example : swapin_helper 0x3100 0x80200000 ≡ 0
swapin_helper-zero_example = swapin_helper-zero 0x3100 0x80200000
