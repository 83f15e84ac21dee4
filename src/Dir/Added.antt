-- ===== src/Dir/Added.antt =====
-- dirlink of fs.c as a whole, and dirlookup behind it.
use xv6_fork.Prelude.{
  ℕ, ◌*◌, ◌≡◌, sym, ap, ◌∙◌, inl, inr, arith, Bool, Bool-cases, Option, none, some, List, ltb,
}
use native.Mathlib.Decide.{ℕ_discrete}
use xv6_fork.Fs.{Fs}
use xv6_fork.Inode.{Inode}
use xv6_fork.Icache.{Store}
use xv6_fork.Dir.{inum_of}
use xv6_fork.Dir.Lookup.{IsDir, entry, FirstMatch}

module _ (name : List ℕ) (dp : Inode) (fs : Fs) (hi : ℕ) where
  pub FirstMatch-unique :
      (found : Option (ℕ × ℕ)) (off inum : ℕ)
      → FirstMatch name dp fs 0 hi (some (off, inum))
      → FirstMatch name dp fs 0 hi found
      → found ≡ some (off, inum)
  FirstMatch-unique none off inum (k, low, high, at, num, hit, before) unmet =
      let miss = unmet k low high in absurd (cc)
  FirstMatch-unique (some (off', inum')) off inum (k, low, high, at, num, hit, before)
        (j, low', high', at', num', hit', before') =
      elim (ℕ_discrete j k) [
        | yes e ↦ ap some (
            pair (at' ∙ ap (λ x. 16 * x) e ∙ sym at)
              (num' ∙ ap (λ x. inum_of (entry dp fs x)) e ∙ sym num))
        | no ne ↦ elim (Bool-cases (ltb j k)) [
          | inl less ↦ let miss = before j low' (ground arith) in absurd (cc)
          | inr more ↦ let miss = before' k low (ground arith) in absurd (cc)
        ]
      ]
    where
      pair : {a b c d : ℕ} → a ≡ b → c ≡ d → ◌≡◌ {A = ℕ × ℕ} (a, c) (b, d)
      pair e f = λ t. (e t, f t)

module _ (has_read has_write : ℕ → Bool) (i : ℕ) (name : List ℕ) (inum : ℕ) (s : Store)
    (h : IsDir (s.cache i).ip s.fs) where
  abbrev dp : Inode
  dp = (s.cache i).ip
