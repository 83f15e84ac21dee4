-- ===== src/Dir/Waits.antt =====
-- dirlink of fs.c with a name that stands for the directory itself.
use xv6_fork.Prelude.{
  ℕ, ◌/◌, ◌<◌, ◌≡◌, ◌≢◌, refl, ap, ◌∙◌, inl, inr, arith, Bool, true, Bool-cases, Option, none, some,
  List, ltb,
}
use xv6_fork.Icache.{Entry, Store, ninode, is_for, more, iget}
use xv6_fork.Icache.Search.{NoneFor}
use xv6_fork.Icache.Entries.{IsCounted, Gets, iget-Gets, is_for-true}
use xv6_fork.Spin.{SleepLock, holdingsleep}
use xv6_fork.Spin.Sleep.{acquiresleep-held}
use xv6_fork.Dir.{dirlookup, iput_run, dirlink, asleep_on}
use xv6_fork.Dir.Lookup.{IsDir, FirstMatch, looked, dirlookup-FirstMatch}
use xv6_fork.Dir.Added.{FirstMatch-unique}

module _ (i : ℕ) (c : ℕ → Entry) (held : List ℕ) (h : IsCounted c held) (used : (c i).ref ≢ 0) where
  own : is_for (c i).dev (c i).ip.inum (c i) ≡ true
  own = ground arith

  inside : i < ninode
  inside = elim (Bool-cases (ltb i ninode)) [
    | inl lt ↦ ground arith
    | inr ge ↦ absurd (used (h.inside i (ground arith)))
  ]

  met : NoneFor (c i).dev (c i).ip.inum c 0 ninode → ⊥
  met unmet = let mine = own in let miss = unmet i (omega arith) inside in absurd (cc)

  only-Gets :
      (r : Option (ℕ × (ℕ → Entry))) → Gets (c i).dev (c i).ip.inum c r → r ≡ some (i, more i c)
  unfolding Gets
  only-Gets none g = absurd (met g.0)
  only-Gets (some (j, c')) (lt, inl (found, e)) =
      let (nz, ed, en) = is_for-true (c i).dev (c i).ip.inum (c j) found in
      let same : j ≡ i = h.unique j i nz used ed en in
      ap (λ d. some (j, d)) e ∙ ap (λ k. some (k, more k c)) same
  only-Gets (some (j, c')) (lt, inr g) = absurd (met g.0)

  -- The entry of an inode in use is the one that iget returns.
  pub iget-own : iget (c i).dev (c i).ip.inum c ≡ some (i, more i c)
  iget-own = only-Gets (iget (c i).dev (c i).ip.inum c) (iget-Gets (c i).dev (c i).ip.inum c)

-- If process `pid` holds the sleep lock of the directory, as callers of dirlink do, and the first entry
-- with the name has the number of the directory itself, as `.` has, then dirlink does not return: it
-- sleeps in iput, on the lock that the process itself holds.
pub dirlink-waits :
    (has_read has_write : ℕ → Bool) (pid i off : ℕ) (name held : List ℕ) (inum : ℕ)
    (locks : ℕ → SleepLock) (s : Store)
    → IsDir (s.cache i).ip s.fs
    → IsCounted s.cache held
    → (s.cache i).ref ≢ 0
    → holdingsleep pid (locks i) ≡ true
    → FirstMatch name
        (s.cache i).ip
        s.fs
        0
        ((s.cache i).ip.size / 16)
        (some (off, (s.cache i).ip.inum))
    → dirlink has_read has_write pid i name inum locks s
      ≡ some (asleep_on i, locks, record s { cache = more i s.cache })
unfolding dirlink iput_run
dirlink-waits has_read has_write pid i off name held inum locks s d h used mine m =
    let (found, e, m') = dirlookup-FirstMatch has_read i name s d in
    let same =
      FirstMatch-unique name (s.cache i).ip s.fs ((s.cache i).ip.size / 16) found off
        (s.cache i).ip.inum m m' in
    rw (dirlink, looking e same, iput_run, acquiresleep-held pid pid (locks i) mine) refl
  where
    looking :
        {found : Option (ℕ × ℕ)}
        → dirlookup has_read i name s ≡ looked (s.cache i).dev s found
        → found ≡ some (off, (s.cache i).ip.inum)
        → dirlookup has_read i name s ≡ some (some (i, off), record s { cache = more i s.cache })
    looking e same =
        e
        ∙ ap (looked (s.cache i).dev s) same
        ∙ ap
            (λ r. elim r as (λ x. Option (Option (ℕ × ℕ) × Store)) [
              | none ↦ none
              | some (k, c) ↦ some (some (k, off), record s { cache = c })
            ])
            (iget-own i s.cache held h used)
