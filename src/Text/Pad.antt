-- ===== src/Text/Pad.antt =====
-- strncpy of string.c: what it copies and what it pads with zeros.
use xv6_fork.Prelude.{
  ℕ, zero, suc, ◌+◌, ◌-◌, ◌≡◌, ◌≤◌, ◌<◌, ◌≢◌, ◌⊎◌, refl, ap, sym, inl, inr, Bool-cases, arith, ◌==◌,
  ◌∙◌,
}
use native.Mathlib.Decide.{ℕ_discrete}
use xv6_fork.Text.{write, pad, strncpy}
use xv6_fork.Text.Copy.{write_self, write_ne}

-- `r` holds at `s` the text at `t` up to its end or for `n` characters, zeros from its end up to `n`
-- bytes, and else what `m` holds.
pub record Padded (m : ℕ → ℕ) (s t n : ℕ) (r : ℕ → ℕ) : Type 0 where
  pub kept :
      (i a b : ℕ) → i < n → a ≡ s + i → b ≡ t + i → ((c : ℕ) → t ≤ c → c < b → m c ≢ 0) → r a ≡ m b
  pub padded : (i a c : ℕ) → i < n → a ≡ s + i → t ≤ c → c < t + i → m c ≡ 0 → r a ≡ 0
  pub outside : (a : ℕ) → (a < s) ⊎ (s + n ≤ a) → r a ≡ m a

pad-outside : (n s : ℕ) (m : ℕ → ℕ) (a : ℕ) → (a < s) ⊎ (s + n ≤ a) → pad n s m a ≡ m a
unfolding pad
pad-outside zero s m a o = refl
pad-outside (suc n) s m a (inl lo) =
    pad-outside n (s + 1) (write m s 0) a (inl (omega arith)) ∙ write_ne m s 0 a (omega arith)
pad-outside (suc n) s m a (inr hi) =
    pad-outside n (s + 1) (write m s 0) a (inr (omega arith)) ∙ write_ne m s 0 a (omega arith)

pad-inside : (n s : ℕ) (m : ℕ → ℕ) (a : ℕ) → s ≤ a → a < s + n → pad n s m a ≡ 0
unfolding pad
pad-inside zero s m a lo hi = absurd (omega arith)
pad-inside (suc n) s m a lo hi = elim (ℕ_discrete s a) [
  | yes e ↦ pad-outside n (s + 1) (write m s 0) a (inl (omega arith)) ∙ write_self m s 0 a e
  | no ne ↦ pad-inside n (s + 1) (write m s 0) a (omega arith) (omega arith)
]

beside : (s n a : ℕ) → (a < s) ⊎ (s + suc n ≤ a) → s ≢ a
beside s n a (inl lo) = omega arith
beside s n a (inr hi) = omega arith

past : (s n a : ℕ) → (a < s) ⊎ (s + suc n ≤ a) → (a < s + 1) ⊎ (s + 1 + n ≤ a)
past s n a (inl lo) = inl (omega arith)
past s n a (inr hi) = inr (omega arith)

-- The text ends at its first character.
end-Padded :
    (n s t : ℕ) (m : ℕ → ℕ) → m t ≡ 0 → Padded m s t (suc n) (pad n (s + 1) (write m s (m t)))
end-Padded n s t m z = record {
  kept = λ i a b lt ea eb full. elim (ℕ_discrete t b) [
    | yes e ↦
        pad-outside n (s + 1) _ a (inl (omega arith))
        ∙ write_self m s (m t) a (omega arith)
        ∙ ap m e
    | no ne ↦ absurd (full t (omega arith) (omega arith) z)
  ];
  padded = λ i a c lt ea lo hi zc. pad-inside n (s + 1) _ a (omega arith) (omega arith);
  outside = λ a o. pad-outside n (s + 1) _ a (past s n a o) ∙ write_ne m s (m t) a (beside s n a o);
}

-- One more character.
next-Padded :
    (n s t : ℕ) (m r : ℕ → ℕ)
    → (t + suc n ≤ s) ⊎ (s + suc n ≤ t)
    → m t ≢ 0
    → Padded (write m s (m t)) (s + 1) (t + 1) n r
    → Padded m s t (suc n) r
next-Padded n s t m r fit nz h = record {
  kept = λ i a b lt ea eb full. elim (ℕ_discrete i 0) [
    | yes e ↦
        h.outside a (inl (omega arith)) ∙ write_self m s (m t) a (omega arith) ∙ ap m (same b eb e)
    | no ne ↦
        h.kept (pred i) a b (omega arith) (omega arith) (omega arith) (λ c lo hi zc.
          full c (omega arith) hi (sym (untouched c (omega arith) (omega arith)) ∙ zc))
        ∙ untouched b (omega arith) (omega arith)
  ];
  padded = λ i a c lt ea lo hi zc. elim (ℕ_discrete t c) [
    | yes e ↦ absurd (nz (ap m e ∙ zc))
    | no ne ↦
        h.padded (pred i) a c (omega arith) (omega arith) (omega arith) (omega arith)
          (untouched c (omega arith) (omega arith) ∙ zc)
  ];
  outside = λ a o. h.outside a (past s n a o) ∙ write_ne m s (m t) a (beside s n a o);
}
  where
    pred : ℕ → ℕ
    pred i = i - 1

    same : {i : ℕ} (b : ℕ) → b ≡ t + i → i ≡ 0 → t ≡ b
    same b eb e = omega arith

    untouched : (c : ℕ) → t ≤ c → c < t + suc n → write m s (m t) c ≡ m c
    untouched c lo hi =
        write_ne m s (m t) c (elim fit [ inl f ↦ omega arith | inr f ↦ omega arith ])

-- strncpy of `n` bytes to `s` from `n` bytes at `t` that do not overlap: the text at `t` up to its end
-- or for `n` characters, then zeros up to `n` bytes; nothing outside them is written.
pub strncpy-Padded :
    (n s t : ℕ) (m : ℕ → ℕ) → (t + n ≤ s) ⊎ (s + n ≤ t) → Padded m s t n (strncpy s t n m)
unfolding strncpy
strncpy-Padded zero s t m fit = record {
  kept = λ i a b lt. absurd (omega arith);
  padded = λ i a c lt. absurd (omega arith);
  outside = λ a o. refl;
}
strncpy-Padded (suc n) s t m fit = elim (Bool-cases (m t == 0)) [
  | inl z ↦ rw z (end-Padded n s t m (ground arith))
  | inr nz ↦ rw nz (
      next-Padded n s t m _ fit (ground arith)
        (strncpy-Padded n (s + 1) (t + 1) (write m s (m t)) (step fit)))
]
  where
    step : (t + suc n ≤ s) ⊎ (s + suc n ≤ t) → (t + 1 + n ≤ s + 1) ⊎ (s + 1 + n ≤ t + 1)
    step (inl lo) = inl (omega arith)
    step (inr hi) = inr (omega arith)
