-- ===== src/Pipe/Tests.antt =====
-- Runs of pipe.c at concrete pipes, one of them with counters about to wrap.
use xv6_fork.Prelude.{◌-◌, ◌≡◌, refl, arith, true, false, List, [], ◌∷◌, ◌++◌, replicate, u32_mod}
use xv6_fork.Pipe.{
  Pipe, read_asleep, write_asleep, write_from, pipewrite, copy_out, piperead, pipeclose, fresh,
}
use xv6_fork.Pipe.Traffic
use xv6_fork.Pipe.Contents.{IsValid, contents}
use xv6_fork.Pipe.Traffic.{
  Op, write, woken, read, close, run, spec_run, view, run_refines, run-fifo, delivered, after,
  accepted,
}

-- The next byte written takes the counter through 0.
abbrev about_to_wrap : Pipe
about_to_wrap = record {
  buf = replicate 512 7;
  nread = u32_mod - 2;
  nwrite = u32_mod - 1;
  readopen = true;
  writeopen = true;
}

about_to_wrap-IsValid : IsValid about_to_wrap
about_to_wrap-IsValid = record {
  storage = refl;
  nread_word = omega arith;
  nwrite_word = omega arith;
  fits = omega arith;
}

script : List Op
script =
    write false (1 ∷ 2 ∷ 3 ∷ [])
    ∷ woken false 9 (4 ∷ [])
    ∷ read false 2
    ∷ close true
    ∷ read false 9
    ∷ read false 1
    ∷ []

delivered_in_order : delivered (run about_to_wrap script) ≡ 7 ∷ 1 ∷ 2 ∷ 3 ∷ 4 ∷ []
unfolding script run Traffic.step write_from pipewrite copy_out piperead pipeclose
delivered_in_order = refl

fresh_sleeps : (piperead (fresh (replicate 512 0)) false 1).2 ≡ read_asleep
unfolding piperead fresh
fresh_sleeps = refl

full_sleeps :
    (pipewrite (fresh (replicate 512 0)) false (replicate 513 5)).2 ≡ write_asleep 513 (5 ∷ [])
unfolding pipewrite write_from fresh
full_sleeps = refl

run_refines_example : run about_to_wrap script ≡ spec_run (view about_to_wrap) script
run_refines_example = run_refines script about_to_wrap about_to_wrap-IsValid

run-fifo_example :
    delivered (run about_to_wrap script) ++ contents (after about_to_wrap script)
    ≡ contents about_to_wrap ++ accepted (view about_to_wrap) script
run-fifo_example = run-fifo script about_to_wrap about_to_wrap-IsValid
