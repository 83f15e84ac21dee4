-- ===== src/Dir/Walk.antt =====
-- namex of fs.c. iunlock only lets others go on, so that iunlockput appears as iput.
use xv6_fork.Prelude.{
  ℕ, zero, suc, ◌+◌, ◌<◌, ◌≡◌, refl, inl, inr, arith, Bool, true, false, not, ◌&&◌, Option, none,
  some, Option-cases, List, [], ◌∷◌, ◌==◌, if◌then◌else◌, length,
}
use xv6_fork.Names.{skipelem}
use xv6_fork.Names.Shorter.{length-skipelem}
use xv6_fork.Icache.{Store, iget, idup, ilock, iput}
use xv6_fork.Dir.{t_dir, first_char, dirlookup}

-- ROOTDEV and ROOTINO.
abbrev pub rootdev : ℕ
rootdev = 1

abbrev pub rootino : ℕ
rootino = 1

abbrev pub no_more : List ℕ → Bool
no_more [] = true
no_more (c ∷ s) = false

-- `iput(ip); return 0;`
pub put_and_fail : ℕ → Store → Option (Option (ℕ × List ℕ) × Store)
put_and_fail ip s = elim (iput ip s) [ none ↦ none | some s' ↦ some (none, s') ]

-- The loop of namex with `ip` in hand: the inode it returns, and what is in `name` then.
pub namex_from :
    ℕ → (ℕ → Bool) → Bool → List ℕ → List ℕ → ℕ → Store → Option (Option (ℕ × List ℕ) × Store)
namex_from zero has_read parent path name ip s = none
namex_from (suc f) has_read parent path name ip s = elim (skipelem path) [
  | none ↦ if parent then put_and_fail ip s else some (some (ip, name), s)
  | some (elem, rest) ↦ elim (ilock ip s) [
    | none ↦ none
    | some s1 ↦
        if not ((s1.cache ip).ip.type == t_dir)
        then put_and_fail ip s1
        else (if parent && no_more rest
            then some (some (ip, elem), s1)
            else (elim (dirlookup has_read ip elem s1) [
              | none ↦ none
              | some (found, s2) ↦ elim found [
                | none ↦ put_and_fail ip s2
                | some (next, off) ↦ elim (iput ip s2) [
                  | none ↦ none
                  | some s3 ↦ namex_from f has_read parent rest elem next s3
                ]
              ]
            ]))
  ]
]

-- `cwd` is the entry of the directory of the process.
pub namex : (ℕ → Bool) → Bool → List ℕ → ℕ → Store → Option (Option (ℕ × List ℕ) × Store)
namex has_read parent path cwd s =
    if first_char path == b'/'
    then (elim (iget rootdev rootino s.cache) [
      | none ↦ none
      | some (ip, c) ↦
          namex_from (length path + 1) has_read parent path [] ip (record s { cache = c })
    ])
    else namex_from (length path + 1) has_read parent path [] cwd
        (record s { cache = idup cwd s.cache })

-- Any fuel above the length of the path gives the same result.
pub namex_from-fuel :
    (f g : ℕ) (has_read : ℕ → Bool) (parent : Bool) (path name : List ℕ) (ip : ℕ) (s : Store)
    → length path < f
    → length path < g
    → namex_from f has_read parent path name ip s ≡ namex_from g has_read parent path name ip s
unfolding namex_from
namex_from-fuel zero g has_read parent path name ip s lf lg = absurd (omega arith)
namex_from-fuel (suc f) zero has_read parent path name ip s lf lg = absurd (omega arith)
namex_from-fuel (suc f) (suc g) has_read parent path name ip s lf lg =
    elim (Option-cases (skipelem path)) [
      | inl e ↦ rw (namex_from, e) refl
      | inr ((elem, rest), e) ↦
          let less : length rest < length path = length-skipelem path elem rest e in
          elim (Option-cases (ilock ip s)) [
            | inl l ↦ rw (namex_from, e, l) refl
            | inr (s1, l) ↦ elim (Option-cases (dirlookup has_read ip elem s1)) [
              | inl d ↦ rw (namex_from, e, l, d) refl
              | inr ((none, s2), d) ↦ rw (namex_from, e, l, d) refl
              | inr ((some (next, off), s2), d) ↦ elim (Option-cases (iput ip s2)) [
                | inl p ↦ rw (namex_from, e, l, d, p) refl
                | inr (s3, p) ↦
                    let same =
                      namex_from-fuel f g has_read parent rest elem next s3 (omega arith)
                        (omega arith) in
                    rw (namex_from, e, l, d, p, same) refl
              ]
            ]
          ]
    ]
