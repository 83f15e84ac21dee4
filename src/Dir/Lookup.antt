-- ===== src/Dir/Lookup.antt =====
-- dirlookup of fs.c finds the first entry with a name.
use xv6_fork.Prelude.{
  ℕ, zero, suc, ◌+◌, ◌-◌, ◌*◌, ◌/◌, ◌%◌, ◌^◌, ◌<◌, ◌≤◌, ◌≡◌, refl, ap, ◌∙◌, inl, inr, arith, min,
  Bool, true, false, not, ◌&&◌, ◌||◌, Bool-cases, Option, none, some, List, ◌==◌, ltb, leb, add32,
}
use mathlib.Core.Path.{subst}
use native.Mathlib.Decide.{ℕ_discrete}
use xv6_fork.Fs.{Fs}
use xv6_fork.Inode.{Inode, got, readi, t_dev, max_size}
use xv6_fork.Inode.Bytes.{window}
use xv6_fork.Inode.Read.{IsFilled, readi-window}
use xv6_fork.Icache.{Store, put, iget}
use xv6_fork.Dir.{t_dir, same_name, inum_of, name_of, read_entry, look_from, with_dir, dirlookup}

-- A directory of whole entries, whose blocks are there.
pub record IsDir (dp : Inode) (fs : Fs) : Type 0 where
  pub kind : dp.type ≡ t_dir
  pub filled : IsFilled dp fs dp.size
  pub small : dp.size ≤ max_size
  pub entries : dp.size % 16 ≡ 0

-- The bytes of entry `k`, and whether it is used for the name.
abbrev pub entry : Inode → Fs → ℕ → List ℕ
entry dp fs k = window dp fs (16 * k) 16

abbrev pub matches : List ℕ → Inode → Fs → ℕ → Bool
matches name dp fs k =
    not (inum_of (entry dp fs k) == 0) && same_name name (name_of (entry dp fs k))

abbrev pub NoMatch : List ℕ → Inode → Fs → ℕ → ℕ → Type 0
NoMatch name dp fs lo hi = (k : ℕ) → lo ≤ k → k < hi → matches name dp fs k ≡ false

-- The first match from entry `lo` to below `hi`, as its offset and its number, or none.
abbrev pub FirstMatch : List ℕ → Inode → Fs → ℕ → ℕ → Option (ℕ × ℕ) → Type 0
FirstMatch name dp fs lo hi none = NoMatch name dp fs lo hi
FirstMatch name dp fs lo hi (some (off, inum)) =
    (k : ℕ) × (lo ≤ k)
    × (k < hi)
    × (off ≡ 16 * k)
    × (inum ≡ inum_of (entry dp fs k))
    × (matches name dp fs k ≡ true)
    × NoMatch name dp fs lo k

module _ (has_read : ℕ → Bool) (dp : Inode) (fs : Fs) (h : IsDir dp fs) where
  pub read_entry-entry :
      (k : ℕ) → 16 * k < dp.size → read_entry has_read (16 * k) dp fs ≡ some (entry dp fs k, dp, fs)
  unfolding read_entry
  read_entry-entry k lt =
      let file : (dp.type == t_dev) ≡ false = ground (arith, h.kind) in
      let guard : (ltb dp.size (16 * k) || leb (2 ^ 32) (16 * k + 16)) ≡ false =
        ground (arith, h.small, h.entries) in
      let all : min 16 (dp.size - 16 * k) ≡ 16 = omega (arith, h.entries) in
      let r = readi-window has_read (16 * k) 16 dp fs file h.small (omega arith) h.filled in
      let read : readi has_read (16 * k) 16 dp fs ≡ some (got 16 (entry dp fs k), dp, fs) =
        r ∙ rw guard (ap (λ m. some (got m (window dp fs (16 * k) m), dp, fs)) all) in
      rw (read_entry, read) refl

  module _ (name : List ℕ) where
    next-NoMatch :
        (lo hi : ℕ)
        → matches name dp fs lo ≡ false
        → NoMatch name dp fs (suc lo) hi
        → NoMatch name dp fs lo hi
    next-NoMatch lo hi other m k le lt = elim (ℕ_discrete lo k) [
      | yes e ↦ subst (λ x. matches name dp fs x ≡ false) e other
      | no ne ↦ m k (omega arith) lt
    ]

    next-FirstMatch :
        (lo hi : ℕ) (r : Option (ℕ × ℕ))
        → matches name dp fs lo ≡ false
        → FirstMatch name dp fs (suc lo) hi r
        → FirstMatch name dp fs lo hi r
    next-FirstMatch lo hi none other m = next-NoMatch lo hi other m
    next-FirstMatch lo hi (some (off, inum)) other (k, low, high, at, num, found, before) =
        (k, omega arith, high, at, num, found, next-NoMatch lo k other before)

    -- What the loop comes to, from entry `lo` on.
    abbrev Looks : ℕ → Option (Option (ℕ × ℕ) × Inode × Fs) → Type 0
    Looks lo r =
        (found : Option (ℕ × ℕ)) × (r ≡ some (found, dp, fs))
        × FirstMatch name dp fs lo (dp.size / 16) found

    look_from-Looks :
        (f lo : ℕ)
        → lo ≤ dp.size / 16
        → dp.size / 16 < lo + f
        → Looks lo (look_from f has_read name (16 * lo) dp fs)
    unfolding look_from
    look_from-Looks zero lo le fuel = absurd (omega arith)
    look_from-Looks (suc f) lo le fuel = elim (Bool-cases (ltb (16 * lo) dp.size)) [
      | inr past ↦ (none, rw (look_from, past) refl, λ k low high. absurd (over k low high past))
      | inl within ↦
          let lt : 16 * lo < dp.size = ground arith in
          let step : add32 (16 * lo) 16 ≡ 16 * suc lo = omega (arith, h.small) in
          let read = read_entry-entry lo lt in
          elim (Bool-cases (matches name dp fs lo)) [
            | inl hit ↦ (
              some (16 * lo, inum_of (entry dp fs lo)),
              rw (look_from, within, read, hit) refl,
              (
                lo,
                omega arith,
                omega (arith, h.entries),
                refl,
                refl,
                hit,
                λ k low high. absurd (omega arith),
              ),
            )
            | inr other ↦
                let (found, e, m) =
                  look_from-Looks f (suc lo) (omega (arith, h.entries)) (omega arith) in
                let rest : look_from f has_read name (add32 (16 * lo) 16) dp fs
                    ≡ some (found, dp, fs) =
                  ap (λ o. look_from f has_read name o dp fs) step ∙ e in
                (
                  found,
                  rw (look_from, within, read, other) rest,
                  next-FirstMatch lo (dp.size / 16) found other m,
                )
          ]
    ]
      where
        over : (k : ℕ) → lo ≤ k → k < dp.size / 16 → ltb (16 * lo) dp.size ≡ false → ⊥
        over k low high past = let ge : dp.size ≤ 16 * lo = ground arith in omega arith

  pub look_all :
      (name : List ℕ)
      → (found : Option (ℕ × ℕ)) × (look_from (dp.size / 16 + 2) has_read name 0 dp fs
          ≡ some (found, dp, fs))
        × FirstMatch name dp fs 0 (dp.size / 16) found
  look_all name = look_from-Looks name (dp.size / 16 + 2) 0 (omega arith) (omega arith)

-- Nothing is written to the directory.
with_same : (i : ℕ) (s : Store) → with_dir i (s.cache i).ip s.fs s ≡ s
with_same i s = λ t. record { cache = λ j. same j t; fs = s.fs }
  where
    same : (j : ℕ) → put s.cache i (s.cache i) j ≡ s.cache j
    same j = elim (ℕ_discrete i j) [
      | yes e ↦ let k : (i == j) ≡ true = ground arith in rw k (ap s.cache e)
      | no ne ↦ let k : (i == j) ≡ false = ground arith in rw k refl
    ]

-- What dirlookup returns for what the search has found.
abbrev pub looked : ℕ → Store → Option (ℕ × ℕ) → Option (Option (ℕ × ℕ) × Store)
looked dev s none = some (none, s)
looked dev s (some (off, inum)) = elim (iget dev inum s.cache) [
  | none ↦ none
  | some (e, c) ↦ some (some (e, off), record s { cache = c })
]

-- dirlookup in a directory whose size is a multiple of that of an entry and whose blocks are there,
-- finds the first of its entries that is in use and has the name. It returns what iget returns for the
-- number in that entry, with the offset of the entry, or nothing if no entry matches; only a panic of
-- iget is one of dirlookup. It changes neither the directory nor any block.
pub dirlookup-FirstMatch :
    (has_read : ℕ → Bool) (i : ℕ) (name : List ℕ) (s : Store)
    → IsDir (s.cache i).ip s.fs
    → (found : Option (ℕ × ℕ)) × (dirlookup has_read i name s ≡ looked (s.cache i).dev s found)
      × FirstMatch name (s.cache i).ip s.fs 0 ((s.cache i).ip.size / 16) found
unfolding dirlookup
dirlookup-FirstMatch has_read i name s h =
    let (found, e, m) = look_all has_read (s.cache i).ip s.fs h name in (found, result found e, m)
  where
    directory : ((s.cache i).ip.type == t_dir) ≡ true
    directory = ground (arith, h.kind)

    unfolded :
        (found : Option (ℕ × ℕ))
        → look_from ((s.cache i).ip.size / 16 + 2) has_read name 0 (s.cache i).ip s.fs
          ≡ some (found, (s.cache i).ip, s.fs)
        → dirlookup has_read i name s
          ≡ looked (s.cache i).dev (with_dir i (s.cache i).ip s.fs s) found
    unfolded none e = rw (dirlookup, directory, e) refl
    unfolded (some (off, inum)) e = rw (dirlookup, directory, e) refl

    result :
        (found : Option (ℕ × ℕ))
        → look_from ((s.cache i).ip.size / 16 + 2) has_read name 0 (s.cache i).ip s.fs
          ≡ some (found, (s.cache i).ip, s.fs)
        → dirlookup has_read i name s ≡ looked (s.cache i).dev s found
    result found e = unfolded found e ∙ ap (λ t. looked (s.cache i).dev t found) (with_same i s)
