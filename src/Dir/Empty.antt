-- ===== src/Dir/Empty.antt =====
-- isdirempty of sysfile.c.
use xv6_fork.Prelude.{
  ℕ, zero, suc, ◌+◌, ◌*◌, ◌/◌, ◌<◌, ◌≤◌, ◌≡◌, ◌≢◌, refl, ap, ◌∙◌, inl, inr, arith, Bool, true,
  false, not, Bool-cases, Option, none, some, ◌==◌, ltb, add32, if◌then◌else◌,
}
use mathlib.Core.Path.{subst}
use native.Mathlib.Decide.{ℕ_discrete}
use xv6_fork.Fs.{Fs}
use xv6_fork.Inode.{Inode}
use xv6_fork.Dir.{dirent_size, inum_of, read_entry}
use xv6_fork.Dir.Lookup.{IsDir, entry, read_entry-entry}

-- The loop from `off` on.
pub empty_from : ℕ → (ℕ → Bool) → ℕ → Inode → Fs → Option (Bool × Inode × Fs)
empty_from zero has_read off dp fs = none
empty_from (suc f) has_read off dp fs =
    if not (ltb off dp.size) then some (true, dp, fs) else (elim (read_entry has_read off dp fs) [
      | none ↦ none
      | some (de, dp', fs') ↦
          let rest = empty_from f has_read (add32 off dirent_size) dp' fs' in
          if not (inum_of de == 0) then some (false, dp', fs') else rest
    ])

pub isdirempty : (ℕ → Bool) → Inode → Fs → Option (Bool × Inode × Fs)
isdirempty has_read dp fs = empty_from (dp.size / dirent_size + 2) has_read (2 * dirent_size) dp fs

-- Whether entries from `lo` on are in use, by the answer.
abbrev Answers : Inode → Fs → ℕ → Bool → Type 0
Answers dp fs lo true = (k : ℕ) → lo ≤ k → k < dp.size / 16 → inum_of (entry dp fs k) ≡ 0
Answers dp fs lo false = (k : ℕ) × (lo ≤ k) × (k < dp.size / 16) × (inum_of (entry dp fs k) ≢ 0)

module _ (has_read : ℕ → Bool) (dp : Inode) (fs : Fs) (h : IsDir dp fs) where
  next-Answers :
      (lo : ℕ) (b : Bool)
      → inum_of (entry dp fs lo) ≡ 0
      → Answers dp fs (suc lo) b
      → Answers dp fs lo b
  next-Answers lo true free a = λ k low lt. elim (ℕ_discrete lo k) [
    | yes e ↦ subst (λ x. inum_of (entry dp fs x) ≡ 0) e free
    | no ne ↦ a k (omega arith) lt
  ]
  next-Answers lo false free (k, low, lt, used) = (k, omega arith, lt, used)

  abbrev Answered : ℕ → Option (Bool × Inode × Fs) → Type 0
  Answered lo r = (b : Bool) × (r ≡ some (b, dp, fs)) × Answers dp fs lo b

  Answered-step :
      (f lo : ℕ)
      → (16 * lo < dp.size → Answered (suc lo) (empty_from f has_read (16 * suc lo) dp fs))
      → Answered lo (empty_from (suc f) has_read (16 * lo) dp fs)
  unfolding empty_from
  Answered-step f lo later = elim (Bool-cases (ltb (16 * lo) dp.size)) [
    | inr past ↦
        let ge : dp.size ≤ 16 * lo = ground arith in
        (true, rw (empty_from, past) refl, λ k low lt. absurd (omega arith))
    | inl within ↦
        let lt : 16 * lo < dp.size = ground arith in
        let step : add32 (16 * lo) 16 ≡ 16 * suc lo = omega (arith, h.small) in
        let read = read_entry-entry has_read dp fs h lo lt in
        elim (Bool-cases (inum_of (entry dp fs lo) == 0)) [
          | inr used ↦ (
            false,
            rw (empty_from, within, read, used) refl,
            (lo, omega arith, omega (arith, h.entries), λ z. ground arith),
          )
          | inl free ↦
              let (b, e, a) = later lt in
              let rest : empty_from f has_read (add32 (16 * lo) 16) dp fs ≡ some (b, dp, fs) =
                ap (λ o. empty_from f has_read o dp fs) step ∙ e in
              (b, rw (empty_from, within, read, free) rest, next-Answers lo b (ground arith) a)
        ]
  ]

  empty_from-Answered :
      (f lo : ℕ)
      → dp.size / 16 < lo + suc f
      → Answered lo (empty_from (suc f) has_read (16 * lo) dp fs)
  empty_from-Answered zero lo fuel = Answered-step zero lo (λ lt. absurd (omega (arith, h.entries)))
  empty_from-Answered (suc f) lo fuel =
      Answered-step (suc f) lo (λ lt. empty_from-Answered f (suc lo) (omega arith))

  -- isdirempty of a well-formed directory says whether all entries but the first two are unused, and
  -- changes nothing.
  pub isdirempty-Answers :
      (b : Bool) × (isdirempty has_read dp fs ≡ some (b, dp, fs)) × Answers dp fs 2 b
  unfolding isdirempty
  isdirempty-Answers =
      let enough : dp.size / 16 + 2 ≡ suc (suc (dp.size / 16)) = omega arith in
      let (b, e, a) = empty_from-Answered (suc (dp.size / 16)) 2 (omega arith) in
      (b, ap (λ f. empty_from f has_read 32 dp fs) enough ∙ e, a)
