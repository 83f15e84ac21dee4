-- ===== src/Text/Lengths.antt =====
-- strlen and memcmp of string.c.
use xv6_fork.Prelude.{
  ℕ, zero, suc, ◌+◌, ◌-◌, ap, sym, ◌≡◌, ◌≤◌, ◌<◌, ◌≢◌, ◌⊎◌, inl, inr, true, false, arith, some,
  ◌==◌, refl, ◌∙◌,
}
use native.Mathlib.Decide.{ℕ_discrete}
use xv6_fork.Text.{ℤ, pos, byte_sub, memcmp, strlen}

-- strlen ends at the first 0, and returns the number of characters before it.
pub strlen-first :
    (k n l s : ℕ) (m : ℕ → ℕ)
    → n ≤ l
    → l < n + k
    → m (s + l) ≡ 0
    → ((i : ℕ) → n ≤ i → i < l → m (s + i) ≢ 0)
    → strlen k n s m ≡ some l
unfolding strlen
strlen-first zero n l s m le lt z before = absurd (omega arith)
strlen-first (suc k) n l s m le lt z before = elim (ℕ_discrete n l) [
  | yes e ↦ rw (e, z) refl
  | no ne ↦
      let more : (m (s + n) == 0) ≡ false = ground (arith, before n (omega arith) (omega arith)) in
      rw more (
        strlen-first k (n + 1) l s m (omega arith) (omega arith) z
          (λ i lo hi. before i (omega arith) hi))
]

-- The first `n` bytes at `p` and `q` are the same.
abbrev pub Same : (ℕ → ℕ) → ℕ → ℕ → ℕ → Type 0
Same m p q n = (i a b : ℕ) → i < n → a ≡ p + i → b ≡ q + i → m a ≡ m b

next-Same : (n p q : ℕ) (m : ℕ → ℕ) → m p ≡ m q → Same m (p + 1) (q + 1) n → Same m p q (suc n)
next-Same n p q m e all i a b lt ea eb = elim (ℕ_discrete i 0) [
  | yes z ↦ ap m (here p a ea z) ∙ e ∙ ap m (sym (here q b eb z))
  | no ne ↦ all (i - 1) a b (omega arith) (omega arith) (omega arith)
]
  where
    here : {i : ℕ} (p a : ℕ) → a ≡ p + i → i ≡ 0 → a ≡ p
    here p a ea z = omega arith

-- The bytes agree; or they differ first at `a` and `b`, and `z` is the difference there.
pub Matches : (ℕ → ℕ) → ℕ → ℕ → ℕ → ℤ → Type 0
Matches m p q n z =
    ((z ≡ pos 0) × Same m p q n)
    ⊎ ((i a b : ℕ) × (i < n)
        × (a ≡ p + i)
        × (b ≡ q + i)
        × (m a ≢ m b)
        × (z ≡ byte_sub (m a) (m b))
        × Same m p q i)

-- memcmp is 0 when the bytes agree, and otherwise the difference of the first two that differ.
pub memcmp-Matches : (n p q : ℕ) (m : ℕ → ℕ) → Matches m p q n (memcmp p q n m)
unfolding memcmp Matches
memcmp-Matches zero p q m = inl (refl, λ i a b lt. absurd (omega arith))
memcmp-Matches (suc n) p q m = elim (ℕ_discrete (m p) (m q)) [
  | no ne ↦
      let differ : (m p == m q) ≡ false = ground (arith, ne) in
      rw differ (
        inr (
          0,
          p,
          q,
          omega arith,
          omega arith,
          omega arith,
          ne,
          refl,
          λ j c d lt. absurd (omega arith),
        ))
  | yes e ↦
      let alike : (m p == m q) ≡ true = ground (arith, e) in
      rw alike (elim (memcmp-Matches n (p + 1) (q + 1) m) [
        | inl (z, all) ↦ inl (z, next-Same n p q m e all)
        | inr (i, a, b, lt, ea, eb, ne, z, before) ↦
            inr (
              suc i,
              a,
              b,
              omega arith,
              omega arith,
              omega arith,
              ne,
              z,
              next-Same i p q m e before,
            )
      ])
]
