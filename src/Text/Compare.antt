-- ===== src/Text/Compare.antt =====
-- strncmp and memcmp of string.c against the first place where two texts differ.
use xv6_fork.Prelude.{
  ℕ, zero, suc, ◌+◌, ◌-◌, ap, sym, ◌≡◌, ◌<◌, ◌≢◌, ◌⊎◌, inl, inr, arith, true, false, not, ◌&&◌,
  ◌==◌, refl, ◌∙◌,
}
use native.Mathlib.Decide.{ℕ_discrete}
use xv6_fork.Text.{ℤ, pos, byte_sub, strncmp}

-- The texts at `p` and `q` agree in each of their first `n` characters that no 0 precedes in `p`.
abbrev pub Agrees : (ℕ → ℕ) → ℕ → ℕ → ℕ → Type 0
Agrees m p q n = (i : ℕ) → i < n → ((j : ℕ) → j < i → m (p + j) ≢ 0) → m (p + i) ≡ m (q + i)

-- They differ first at `i`, and `z` is the difference there.
pub record Differs (m : ℕ → ℕ) (p q n i : ℕ) (z : ℤ) : Type 0 where
  pub low : i < n
  pub apart : m (p + i) ≢ m (q + i)
  pub diff : z ≡ byte_sub (m (p + i)) (m (q + i))
  pub before : (j : ℕ) → j < i → (m (p + j) ≡ m (q + j)) × (m (p + j) ≢ 0)

abbrev pub Compares : (ℕ → ℕ) → ℕ → ℕ → ℕ → ℤ → Type 0
Compares m p q n z = (z ≡ pos 0) × Agrees m p q n ⊎ ((i : ℕ) × Differs m p q n i z)

same_sub : (a b : ℕ) → a ≡ b → byte_sub a b ≡ pos 0
same_sub a b e = ground arith

module _ (m : ℕ → ℕ) (p q n : ℕ) where
  at_first : (p : ℕ) → m (p + 0) ≡ m p
  at_first p = ap m (omega arith)

  at_next : (p i : ℕ) → i ≢ 0 → m (p + i) ≡ m (p + 1 + (i - 1))
  at_next p i ne = ap m (omega arith)

  -- The first characters differ.
  now : m p ≢ m q → Differs m p q (suc n) 0 (byte_sub (m p) (m q))
  now ne = record {
    low = omega arith;
    apart = rw (at_first p, at_first q) ne;
    diff = rw (at_first p, at_first q);
    before = λ j lt. absurd (omega arith);
  }

  -- Both texts end here.
  ends : m p ≡ m q → m p ≡ 0 → Agrees m p q (suc n)
  ends e z i lt full = elim (ℕ_discrete i 0) [
    | yes first ↦ rw (first, at_first p, at_first q) e
    | no ne ↦ absurd (full 0 (omega arith) (at_first p ∙ z))
  ]

  later : (z : ℤ) → m p ≡ m q → m p ≢ 0 → Compares m (p + 1) (q + 1) n z → Compares m p q (suc n) z
  later z e nz (inl (zero_diff, same)) = inl (
    zero_diff,
    λ i lt full. elim (ℕ_discrete i 0) [
      | yes first ↦ rw (first, at_first p, at_first q) e
      | no ne ↦
          at_next p i ne
          ∙ same (i - 1) (omega arith) (λ j lj zero_char.
            full (suc j) (omega arith)
              (at_next p (suc j) (omega arith) ∙ ap m (omega arith) ∙ zero_char))
          ∙ sym (at_next q i ne)
    ],
  )
  later z e nz (inr (i, d)) = inr (
    suc i,
    record {
      low = omega (arith, d.low);
      apart = λ same. d.apart (back p i ∙ same ∙ sym (back q i));
      diff = d.diff ∙ rw (back p i, back q i);
      before = λ j lt. elim (ℕ_discrete j 0) [
        | yes first ↦ rw (first, at_first p, at_first q) (e, nz)
        | no ne ↦
            let (same, full) = d.before (j - 1) (omega arith) in
            rw (at_next p j ne, at_next q j ne) (same, full)
      ];
    },
  )
    where
      back : (p i : ℕ) → m (p + 1 + i) ≡ m (p + suc i)
      back p i = ap m (omega arith)

-- strncmp is 0 when the texts agree up to their end or their first `n` characters, and otherwise the
-- difference of the first two characters that differ.
pub strncmp-Compares : (p q n : ℕ) (m : ℕ → ℕ) → Compares m p q n (strncmp p q n m)
unfolding strncmp
strncmp-Compares p q zero m = inl (refl, λ i lt full. absurd (omega arith))
strncmp-Compares p q (suc n) m = elim (ℕ_discrete (m p) (m q)) [
  | no ne ↦ rw (stops (inl ne)) (inr (0, now m p q n ne))
  | yes e ↦ elim (ℕ_discrete (m p) 0) [
    | yes z ↦ rw (stops (inr z)) (inl (same_sub (m p) (m q) e, ends m p q n e z))
    | no nz ↦ rw (goes_on e nz) (later m p q n _ e nz (strncmp-Compares (p + 1) (q + 1) n m))
  ]
]
  where
    stops : (m p ≢ m q) ⊎ (m p ≡ 0) → (not (m p == 0) && (m p == m q)) ≡ false
    stops (inl ne) = ground arith
    stops (inr z) = ground arith

    goes_on : m p ≡ m q → m p ≢ 0 → (not (m p == 0) && (m p == m q)) ≡ true
    goes_on e nz = ground arith
