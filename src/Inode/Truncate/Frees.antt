-- ===== src/Inode/Truncate/Frees.antt =====
-- The loops of itrunc of fs.c.
use xv6_fork.Prelude.{
  ℕ, zero, suc, ◌+◌, ◌<◌, ◌≤◌, ◌≡◌, ◌≢◌, refl, sym, ap, ◌∙◌, arith, true, false, some, ◌==◌,
}
use mathlib.Core.Path.{subst}
use native.Mathlib.Decide.{ℕ_discrete}
use xv6_fork.Fs.{Fs, bblock, bfree}
use xv6_fork.Inode.{Inode, put_addr, uint_at}
use xv6_fork.Inode.Slots.{uint_at-same}
use xv6_fork.Inode.Truncate.{free_slot, free_direct, free_word, free_words, free_indirect}
use xv6_fork.Inode.Truncate.Freed.{AreBlocks, Freed, Freed-zero, Freed-zeros, Freed-next}

-- The first `n` block numbers of the inode have been set to 0.
pub record Cleared (ip : Inode) (n : ℕ) (ip' : Inode) : Type 0 where
  pub inum : ip'.inum ≡ ip.inum
  pub type : ip'.type ≡ ip.type
  pub major : ip'.major ≡ ip.major
  pub minor : ip'.minor ≡ ip.minor
  pub nlink : ip'.nlink ≡ ip.nlink
  pub zeros : (j : ℕ) → j < n → ip'.addrs j ≡ 0
  pub rest : (j : ℕ) → n ≤ j → ip'.addrs j ≡ ip.addrs j

pub Cleared-none : (ip : Inode) → Cleared ip 0 ip
Cleared-none ip = record {
  inum = refl;
  type = refl;
  major = refl;
  minor = refl;
  nlink = refl;
  zeros = λ j lt. absurd (omega arith);
  rest = λ j le. refl;
}

Cleared-zero :
    (ip : Inode) (n : ℕ) (ip' : Inode) → Cleared ip n ip' → ip'.addrs n ≡ 0 → Cleared ip (suc n) ip'
Cleared-zero ip n ip' c z = record {
  inum = c.inum;
  type = c.type;
  major = c.major;
  minor = c.minor;
  nlink = c.nlink;
  zeros = λ j lt. elim (ℕ_discrete j n) [
    | yes e ↦ ap ip'.addrs e ∙ z
    | no ne ↦ c.zeros j (omega arith)
  ];
  rest = λ j le. c.rest j (omega arith);
}

Cleared-put :
    (ip : Inode) (n : ℕ) (ip' : Inode) → Cleared ip n ip' → Cleared ip (suc n) (put_addr n 0 ip')
Cleared-put ip n ip' c = record {
  inum = c.inum;
  type = c.type;
  major = c.major;
  minor = c.minor;
  nlink = c.nlink;
  zeros = λ j lt. elim (ℕ_discrete j n) [
    | yes e ↦ let same : (n == j) ≡ true = ground arith in rw same refl
    | no ne ↦ let other : (n == j) ≡ false = ground arith in rw other (c.zeros j (omega arith))
  ];
  rest = λ j le. let other : (n == j) ≡ false = ground arith in rw other (c.rest j (omega arith));
}

module _ {fs : Fs} {v : ℕ → ℕ} (owned : AreBlocks fs v) (ip : Inode)
    (directs : (k : ℕ) → k < 12 → v k ≡ ip.addrs k) where
  free_slot-Freed :
      (n : ℕ) (ip' : Inode) (fs' : Fs)
      → n < 12
      → Cleared ip n ip'
      → Freed fs v n fs'
      → (ip'' : Inode) × (fs'' : Fs) × (free_slot n ip' fs' ≡ some (ip'', fs''))
        × Cleared ip (suc n) ip''
        × Freed fs v (suc n) fs''
  unfolding free_slot
  free_slot-Freed n ip' fs' lt c f =
      let e : v n ≡ ip'.addrs n = directs n lt ∙ sym (c.rest n (omega arith)) in
      elim (ℕ_discrete (ip'.addrs n) 0) [
        | yes z ↦
            let here : (ip'.addrs n == 0) ≡ true = ground arith in
            (ip', fs', rw here refl, Cleared-zero ip n ip' c z, Freed-zero owned n fs' f (e ∙ z))
        | no nz ↦
            let other : (ip'.addrs n == 0) ≡ false = ground arith in
            let (fs'', q, f') = Freed-next owned n fs' f (omega arith) (λ z. nz (sym e ∙ z)) in
            let r : bfree (ip'.addrs n) fs' ≡ some fs'' = ap (λ x. bfree x fs') (sym e) ∙ q in
            (put_addr n 0 ip', fs'', rw (other, r) refl, Cleared-put ip n ip' c, f')
      ]

  pub free_direct-Freed :
      (k n : ℕ) (ip' : Inode) (fs' : Fs)
      → k + n ≡ 12
      → Cleared ip n ip'
      → Freed fs v n fs'
      → (ip'' : Inode) × (fs'' : Fs) × (free_direct k n ip' fs' ≡ some (ip'', fs''))
        × Cleared ip 12 ip''
        × Freed fs v 12 fs''
  unfolding free_direct
  free_direct-Freed zero n ip' fs' e c f =
      let here : n ≡ 12 = omega arith in
      (ip', fs', refl, subst (λ m. Cleared ip m ip') here c, subst (λ m. Freed fs v m fs') here f)
  free_direct-Freed (suc k) n ip' fs' e c f =
      let (ip1, fs1, q, c1, f1) = free_slot-Freed n ip' fs' (omega arith) c f in
      let next : suc n ≡ n + 1 = omega arith in
      let (ip2, fs2, r, c2, f2) =
        free_direct-Freed k (n + 1) ip1 fs1 (omega arith) (subst (λ m. Cleared ip m ip1) next c1)
          (subst (λ m. Freed fs v m fs1) next f1) in
      (ip2, fs2, rw (free_direct, q) r, c2, f2)

  module _ (b : ℕ) (clear : (y : ℕ) → y < fs.size → bblock y fs ≢ b)
      (words : (j : ℕ) → j < 128 → v (12 + j) ≡ uint_at fs b j) where
    free_word-Freed :
        (j : ℕ) (fs' : Fs)
        → j < 128
        → Freed fs v (12 + j) fs'
        → (fs'' : Fs) × (free_word j b fs' ≡ some fs'') × Freed fs v (suc (12 + j)) fs''
    unfolding free_word
    free_word-Freed j fs' lt f =
        let e : v (12 + j) ≡ uint_at fs' b j =
          words j lt ∙ sym (uint_at-same fs fs' b j (λ i. f.same b i clear)) in
        elim (ℕ_discrete (uint_at fs' b j) 0) [
          | yes z ↦
              let here : (uint_at fs' b j == 0) ≡ true = ground arith in
              (fs', rw here refl, Freed-zero owned (12 + j) fs' f (e ∙ z))
          | no nz ↦
              let other : (uint_at fs' b j == 0) ≡ false = ground arith in
              let (fs'', q, f') =
                Freed-next owned (12 + j) fs' f (omega arith) (λ z. nz (sym e ∙ z)) in
              (fs'', rw other (ap (λ x. bfree x fs') (sym e) ∙ q), f')
        ]

    pub free_words-Freed :
        (k j : ℕ) (fs' : Fs)
        → k + j ≡ 128
        → Freed fs v (12 + j) fs'
        → (fs'' : Fs) × (free_words k j b fs' ≡ some fs'') × Freed fs v 140 fs''
    unfolding free_words
    free_words-Freed zero j fs' e f =
        let here : 12 + j ≡ 140 = omega arith in (fs', refl, subst (λ m. Freed fs v m fs') here f)
    free_words-Freed (suc k) j fs' e f =
        let (fs1, q, f1) = free_word-Freed j fs' (omega arith) f in
        let next : suc (12 + j) ≡ 12 + (j + 1) = omega arith in
        let (fs2, r, f2) =
          free_words-Freed k (j + 1) fs1 (omega arith) (subst (λ m. Freed fs v m fs1) next f1) in
        (fs2, rw (free_words, q) r, f2)

  module _ (clear : (y : ℕ) → y < fs.size → ip.addrs 12 ≢ 0 → bblock y fs ≢ ip.addrs 12)
      (words : ip.addrs 12 ≢ 0 → (j : ℕ) → j < 128 → v (12 + j) ≡ uint_at fs (ip.addrs 12) j)
      (absent : ip.addrs 12 ≡ 0 → (k : ℕ) → 12 ≤ k → k < 141 → v k ≡ 0)
      (last : v 140 ≡ ip.addrs 12) where
    pub free_indirect-Freed :
        (ip' : Inode) (fs' : Fs)
        → Cleared ip 12 ip'
        → Freed fs v 12 fs'
        → (ip'' : Inode) × (fs'' : Fs) × (free_indirect ip' fs' ≡ some (ip'', fs''))
          × Cleared ip 13 ip''
          × Freed fs v 141 fs''
    unfolding free_indirect
    free_indirect-Freed ip' fs' c f =
        let same : ip'.addrs 12 ≡ ip.addrs 12 = c.rest 12 (omega arith) in
        elim (ℕ_discrete (ip.addrs 12) 0) [
          | yes z ↦
              let here : (ip.addrs 12 == 0) ≡ true = ground arith in
              (
                ip',
                fs',
                rw (same, here) refl,
                Cleared-zero ip 12 ip' c (same ∙ z),
                Freed-zeros owned 129 12 141 fs' (omega arith) f (absent z),
              )
          | no nz ↦
              let other : (ip'.addrs 12 == 0) ≡ false = ground arith in
              let (fs1, q, f1) =
                free_words-Freed (ip.addrs 12) (λ y lt. clear y lt nz) (words nz) 128 0 fs'
                  (omega arith) f in
              let (fs2, r, f2) =
                Freed-next owned 140 fs1 f1 (omega arith) (λ z. nz (sym last ∙ z)) in
              let w : free_words 128 0 (ip'.addrs 12) fs' ≡ some fs1 =
                ap (λ x. free_words 128 0 x fs') same ∙ q in
              let s : bfree (ip'.addrs 12) fs1 ≡ some fs2 =
                ap (λ x. bfree x fs1) (same ∙ sym last) ∙ r in
              (put_addr 12 0 ip', fs2, rw (other, w, s) refl, Cleared-put ip 12 ip' c, f2)
        ]
