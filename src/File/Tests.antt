-- ===== src/File/Tests.antt =====
-- file.c with one file that is shared once.
use xv6_fork.Prelude.{count, ℕ, ◌≡◌, refl, false, some, List, [], ◌∷◌, ◌++◌, if◌then◌else◌, ◌==◌}
use xv6_fork.File.{
  File, fd_none, find_free, filealloc, filedup, nothing, release_of, fileclose, put,
}
use xv6_fork.File.Counts.{IsHeld}
use xv6_fork.File.Holders.{Users, allocs, dups, Reach, here, next, Reach-IsHeld}

abbrev closed_file : File
closed_file = record {
  type = fd_none;
  ref = 0;
  readable = false;
  writable = false;
  pipe = 0;
  ip = 0;
  off = 0;
}

abbrev no_files : ℕ → File
no_files f = closed_file

abbrev opened : ℕ → File
opened = put no_files 0 (record closed_file { ref = 1 })

abbrev shared : ℕ → File
shared = put opened 0 (record closed_file { ref = 2 })

abbrev start : Users
start = record { files = no_files; held = [] }

abbrev sharing : Users
sharing = record { files = shared; held = 0 ∷ 0 ∷ [] }

opens : filealloc no_files ≡ (some 0, opened)
unfolding filealloc find_free
opens = refl

shares : filedup 0 opened ≡ some shared
unfolding filedup
shares = refl

Reach-sharing : Reach start sharing
Reach-sharing = next (next here (allocs opens)) (dups 0 [] [] refl shares)

Reach-IsHeld_example :
    IsHeld shared (0 ∷ 0 ∷ [])
    × ((f : ℕ) (xs ys : List ℕ)
        → ◌≡◌ {A = List ℕ} (0 ∷ 0 ∷ []) (xs ++ f ∷ ys)
        → ((w : ℕ → File) × (filedup f shared ≡ some w))
          × ((w : ℕ → File) × (fileclose f shared
                ≡ some (w, if count f (xs ++ ys) == 0 then release_of (shared f) else nothing))))
Reach-IsHeld_example = Reach-IsHeld start sharing (λ f. refl) Reach-sharing
