-- ===== src/Dir/Link.antt =====
-- dirlink of fs.c adds an entry that dirlookup finds.
use xv6_fork.Prelude.{
  ℕ, zero, suc, ◌+◌, ◌*◌, ◌/◌, ◌^◌, ◌<◌, ◌≤◌, ◌≡◌, ◌≢◌, refl, sym, ap, ◌∙◌, ◌⊎◌, inl, inr, arith,
  max, Bool, true, false, not, ◌&&◌, Bool-cases, some, List, [], ◌∷◌, ◌==◌, ltb, add32, length,
}
use mathlib.Core.Path.{subst, ap₂}
use native.Mathlib.Decide.{ℕ_discrete}
use xv6_fork.Fs.{Fs}
use xv6_fork.Inode.{Inode, max_size}
use xv6_fork.Inode.Slots.{IsInode}
use xv6_fork.Inode.Free.{free}
use xv6_fork.Inode.Bytes.{byte, window}
use xv6_fork.Inode.Stored.{AllBytes}
use xv6_fork.Inode.Update.{Stores}
use xv6_fork.Inode.RoundTrip.{window-these}
use xv6_fork.Dir.{
  first_char, next_char, same_text, same_name, inum_of, name_of, padded, dirent, gap_from,
}
use xv6_fork.Dir.Lookup.{IsDir, entry, NoMatch, FirstMatch, read_entry-entry}

abbrev pub NoNul : List ℕ → Type 0
NoNul [] = Unit {0}
NoNul (c ∷ s) = (c ≢ 0) × NoNul s

-- A name matches the bytes that strncpy makes of it.
same_text-padded : (n : ℕ) (s : List ℕ) → NoNul s → same_text n s (padded n s) ≡ true
unfolding same_text
same_text-padded zero s h = refl
same_text-padded (suc n) [] h = refl
same_text-padded (suc n) (c ∷ s) h =
    let some_char : (c == 0) ≡ false = ground (arith, h.0) in
    let same : (c == c) ≡ true = ground arith in rw (some_char, same) (same_text-padded n s h.1)

pub length-padded : (n : ℕ) (s : List ℕ) → length (padded n s) ≡ n
length-padded zero s = refl
length-padded (suc n) s = ap suc (length-padded n (next_char s))

window-same :
    (n o : ℕ) (dp dp' : Inode) (fs fs' : Fs)
    → ((j : ℕ) → o ≤ j → j < o + n → byte dp' fs' j ≡ byte dp fs j)
    → window dp' fs' o n ≡ window dp fs o n
window-same zero o dp dp' fs fs' h = refl
window-same (suc n) o dp dp' fs fs' h =
    ap₂ ◌∷◌ (h o (omega arith) (omega arith))
      (window-same n (o + 1) dp dp' fs fs' (λ j le lt. h j (omega arith) (omega arith)))

-- The entries from `lo` to below `k` are in use.
abbrev pub AllUsed : Inode → Fs → ℕ → ℕ → Type 0
AllUsed dp fs lo k = (j : ℕ) → lo ≤ j → j < k → inum_of (entry dp fs j) ≢ 0

-- The place that dirlink takes from entry `lo` on: the first one that is not in use, or the end.
abbrev pub IsGap : Inode → Fs → ℕ → ℕ → Type 0
IsGap dp fs lo k =
    AllUsed dp fs lo k × ((k < dp.size / 16) × (inum_of (entry dp fs k) ≡ 0) ⊎ (k ≡ dp.size / 16))

next-IsGap :
    (dp : Inode) (fs : Fs) (lo k : ℕ)
    → inum_of (entry dp fs lo) ≢ 0
    → IsGap dp fs (suc lo) k
    → IsGap dp fs lo k
next-IsGap dp fs lo k nz (used, place) = (
  (λ j low lt. elim (ℕ_discrete lo j) [
    | yes e ↦ subst (λ x. inum_of (entry dp fs x) ≢ 0) e nz
    | no ne ↦ used j (omega arith) lt
  ]),
  place,
)

module _ (has_read : ℕ → Bool) (dp : Inode) (fs : Fs) (h : IsDir dp fs) where
  pub gap_from-IsGap :
      (f lo : ℕ)
      → lo ≤ dp.size / 16
      → dp.size / 16 < lo + f
      → (k : ℕ) × (gap_from f has_read (16 * lo) dp fs ≡ some (16 * k, dp, fs)) × IsGap dp fs lo k
  unfolding gap_from
  gap_from-IsGap zero lo le fuel = absurd (omega arith)
  gap_from-IsGap (suc f) lo le fuel = elim (Bool-cases (ltb (16 * lo) dp.size)) [
    | inr past ↦
        let ge : dp.size ≤ 16 * lo = ground arith in
        (lo, rw (gap_from, past) refl, ((λ j low less. absurd (omega arith)), inr (omega arith)))
    | inl within ↦
        let lt : 16 * lo < dp.size = ground arith in
        let step : add32 (16 * lo) 16 ≡ 16 * suc lo = omega (arith, h.small) in
        let read = read_entry-entry has_read dp fs h lo lt in
        elim (Bool-cases (inum_of (entry dp fs lo) == 0)) [
          | inl free ↦ (
            lo,
            rw (gap_from, within, read, free) refl,
            ((λ j low less. absurd (omega arith)), inl (omega (arith, h.entries), ground arith)),
          )
          | inr used ↦
              let (k, e, g) = gap_from-IsGap f (suc lo) (omega (arith, h.entries)) (omega arith) in
              let rest : gap_from f has_read (add32 (16 * lo) 16) dp fs ≡ some (16 * k, dp, fs) =
                ap (λ o. gap_from f has_read o dp fs) step ∙ e in
              (k, rw (gap_from, within, read, used) rest, next-IsGap dp fs lo k (ground arith) g)
        ]
  ]

-- What is in a directory with the new entry, which is number `k`.
pub record Adds (name : List ℕ) (inum : ℕ) (dp : Inode) (fs : Fs) (k : ℕ) (dp' : Inode) (fs' : Fs)
    : Type 0 where
  pub dir : IsDir dp' fs'
  pub inode : IsInode dp' fs'
  pub size : dp'.size ≡ max dp.size (16 * k + 16)
  pub gap : IsGap dp fs 0 k
  pub new : entry dp' fs' k ≡ dirent name inum
  pub others : (j : ℕ) → j < dp.size / 16 → j ≢ k → entry dp' fs' j ≡ entry dp fs j

pub dirent-AllBytes : (name : List ℕ) (inum : ℕ) → AllBytes name → AllBytes (dirent name inum)
dirent-AllBytes name inum small zero = omega arith
dirent-AllBytes name inum small (suc zero) = omega arith
dirent-AllBytes name inum small (suc (suc j)) = padded_small 14 name small j
  where
    first_small : (s : List ℕ) → AllBytes s → first_char s < 256
    first_small [] h = omega arith
    first_small (c ∷ s) h = h 0

    next_small : (s : List ℕ) → AllBytes s → AllBytes (next_char s)
    next_small [] h j = omega arith
    next_small (c ∷ s) h j = h (suc j)

    padded_small : (n : ℕ) (s : List ℕ) → AllBytes s → AllBytes (padded n s)
    padded_small zero s h j = omega arith
    padded_small (suc n) s h zero = first_small s h
    padded_small (suc n) s h (suc j) = padded_small n (next_char s) (next_small s h) j

module _ (name : List ℕ) (inum : ℕ) (dp : Inode) (fs : Fs) (h : IsDir dp fs) where
  pub stored-Adds :
      (k : ℕ) (dp' : Inode) (fs' : Fs)
      → IsGap dp fs 0 k
      → 16 * k + 16 ≤ max_size
      → Stores dp fs (16 * k) (dirent name inum) dp' fs'
      → Adds name inum dp fs k dp' fs'
  stored-Adds k dp' fs' g fit t =
      let long : length (dirent name inum) ≡ 16 = ap (λ n. suc (suc n)) (length-padded 14 name) in
      let size : dp'.size ≡ max dp.size (16 * k + 16) =
        t.size ∙ ap (λ n. max dp.size (16 * k + n)) long in
      record {
        dir = record {
          kind = t.type ∙ h.kind;
          filled = t.filled;
          small = omega (arith, size, h.small);
          entries = omega (arith, size, h.entries);
        };
        inode = t.inode;
        size = size;
        gap = g;
        new =
            ap (window dp' fs' (16 * k)) (sym long)
            ∙ window-these dp' fs' (dirent name inum) (16 * k) t.inside;
        others = λ j lt ne. window-same 16 (16 * j) dp dp' fs fs' (λ o low high.
            t.outside o (omega (arith, h.entries)) (before_or_behind j o lt ne low high long));
      }
    where
      before_or_behind :
          (j o : ℕ)
          → j < dp.size / 16
          → j ≢ k
          → 16 * j ≤ o
          → o < 16 * j + 16
          → length (dirent name inum) ≡ 16
          → (o < 16 * k) ⊎ (16 * k + length (dirent name inum) ≤ o)
      before_or_behind j o lt ne low high long = elim (Bool-cases (ltb j k)) [
        | inl less ↦ let l : j < k = ground arith in inl (omega arith)
        | inr more ↦ let l : k ≤ j = ground arith in inr (omega arith)
      ]

  -- dirlookup finds the new entry, if there was none with the name.
  pub added-FirstMatch :
      (k : ℕ) (dp' : Inode) (fs' : Fs)
      → Adds name inum dp fs k dp' fs'
      → NoNul name
      → 0 < inum
      → inum < 2 ^ 16
      → NoMatch name dp fs 0 (dp.size / 16)
      → FirstMatch name dp' fs' 0 (dp'.size / 16) (some (16 * k, inum))
  added-FirstMatch k dp' fs' a plain some_inum small unmet =
      let number : inum_of (dirent name inum) ≡ inum = omega arith in
      (
        k,
        omega arith,
        omega (arith, a.size),
        refl,
        sym number ∙ ap inum_of (sym a.new),
        ap (λ de. not (inum_of de == 0) && same_name name (name_of de)) a.new
            ∙ meets (inum_of (dirent name inum)) (same_name name (padded 14 name))
                (omega (arith, number)) (same_text-padded 14 name plain),
        λ j low lt.
            ap (λ de. not (inum_of de == 0) && same_name name (name_of de))
              (a.others j (in_old j lt) (λ e. omega arith))
            ∙ unmet j low (in_old j lt),
      )
    where
      meets : (n : ℕ) (b : Bool) → n ≢ 0 → b ≡ true → (not (n == 0) && b) ≡ true
      meets n b nz e = ground arith

      in_old : (j : ℕ) → j < k → j < dp.size / 16
      in_old j lt = elim a.gap.1 [ inl (old, free) ↦ omega arith | inr end ↦ omega arith ]
