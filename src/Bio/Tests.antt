-- ===== src/Bio/Tests.antt =====
-- bio.c on memory that is zero, but for the pointers.
use xv6_fork.Prelude.{ℕ, false, List, some, ◌≡◌, refl, arith}
use xv6_fork.Bio.{
  Cache, bget, binit, brelse, find_cached, find_recyclable, init_from, link, recycle,
}
use xv6_fork.Bio.Buffers.{Gets}
use xv6_fork.Bio.Given.{IsCache}
use xv6_fork.Bio.Unique.{Reach, here, next, gets, releases, Reach-IsCache}

abbrev garbage : Cache
garbage = record {
  valid = λ b. false;
  dirty = λ b. false;
  dev = λ b. 0;
  blockno = λ b. 0;
  refcnt = λ b. 1;
  prev = λ b. 7;
  next = λ b. 7;
}

-- The buffer of block 9 of device 1 is taken and released.
abbrev empty_cache : Cache
empty_cache = record garbage { refcnt = λ b. 0 }

taken : bget 1 9 (binit empty_cache) ≡ some (0, recycle 0 1 9 (binit empty_cache))
unfolding bget find_cached find_recyclable binit init_from link
taken = refl

abbrev used_once : Reach (binit empty_cache) (brelse 0 (recycle 0 1 9 (binit empty_cache)))
used_once = next (next here (gets 1 9 0 taken)) (releases 0 (omega arith))

Reach-IsCache_example :
    (order : List ℕ) × IsCache (brelse 0 (recycle 0 1 9 (binit empty_cache))) order
    × ((dev blockno : ℕ)
        → Gets dev blockno
            (brelse 0 (recycle 0 1 9 (binit empty_cache)))
            order
            (bget dev blockno (brelse 0 (recycle 0 1 9 (binit empty_cache)))))
Reach-IsCache_example =
    Reach-IsCache empty_cache (brelse 0 (recycle 0 1 9 (binit empty_cache))) (λ b lt. (refl, refl))
      used_once
