-- ===== src/Text/Copy.antt =====
-- safestrcpy of string.c: what it copies and where it ends the text.
use xv6_fork.Prelude.{
  ℕ, zero, suc, ◌+◌, ◌-◌, ap, sym, ◌≡◌, ◌≤◌, ◌<◌, ◌≢◌, ◌⊎◌, inl, inr, Bool-cases, arith, ◌==◌, ◌∙◌,
}
use native.Mathlib.Decide.{ℕ_discrete}
use xv6_fork.Text.{write, copy_text, safestrcpy}

-- `r` holds the first `k` characters of the text at `t`, none of them 0, and a 0 behind them, at `s`
-- and within `n` bytes; fewer than `n - 1` only where the text at `t` ends; all else is as in `m`.
pub record Copied (m : ℕ → ℕ) (s t n : ℕ) (r : ℕ → ℕ) (k : ℕ) : Type 0 where
  pub room : k < n
  pub ended : r (s + k) ≡ 0
  pub copied : (i a b : ℕ) → i < k → a ≡ s + i → b ≡ t + i → (r a ≡ m b) × (m b ≢ 0)
  pub whole : (k + 1 ≡ n) ⊎ (m (t + k) ≡ 0)
  pub outside : (a : ℕ) → (a < s) ⊎ (s + n ≤ a) → r a ≡ m a

pub write_self : (m : ℕ → ℕ) (a v b : ℕ) → a ≡ b → write m a v b ≡ v
write_self m a v b e = ground arith

pub write_ne : (m : ℕ → ℕ) (a v b : ℕ) → a ≢ b → write m a v b ≡ m b
write_ne m a v b ne = ground arith

module _ (m : ℕ → ℕ) (s t n : ℕ) where
  -- No room is left.
  full-Copied : Copied m s t 1 (write m s 0) 0
  full-Copied = record {
    room = omega arith;
    ended = write_self m s 0 (s + 0) (omega arith);
    copied = λ i a b lt. absurd (omega arith);
    whole = inl (omega arith);
    outside = λ a o. write_ne m s 0 a (apart a o);
  }
    where
      apart : (a : ℕ) → (a < s) ⊎ (s + 1 ≤ a) → s ≢ a
      apart a (inl lo) = omega arith
      apart a (inr hi) = omega arith

  first : ℕ → ℕ
  first = write m s (m t)

  -- The text at `t` ends here.
  end-Copied : m t ≡ 0 → Copied m s t (suc (suc n)) (write first (s + 1) 0) 0
  unfolding first
  end-Copied z = record {
    room = omega arith;
    ended =
        write_ne first (s + 1) 0 (s + 0) (omega arith)
        ∙ write_self m s (m t) (s + 0) (omega arith)
        ∙ z;
    copied = λ i a b lt. absurd (omega arith);
    whole = inr (ap m (same t) ∙ z);
    outside = λ a o. write_ne first (s + 1) 0 a (past a o) ∙ write_ne m s (m t) a (beside a o);
  }
    where
      same : (t : ℕ) → t + 0 ≡ t
      same t = omega arith

      past : (a : ℕ) → (a < s) ⊎ (s + suc (suc n) ≤ a) → s + 1 ≢ a
      past a (inl lo) = omega arith
      past a (inr hi) = omega arith

      beside : (a : ℕ) → (a < s) ⊎ (s + suc (suc n) ≤ a) → s ≢ a
      beside a (inl lo) = omega arith
      beside a (inr hi) = omega arith

  -- One more character.
  next-Copied :
      (r : ℕ → ℕ) (k : ℕ)
      → (t + suc (suc n) ≤ s) ⊎ (s + suc (suc n) ≤ t)
      → m t ≢ 0
      → Copied first (s + 1) (t + 1) (suc n) r k
      → Copied m s t (suc (suc n)) r (suc k)
  unfolding first
  next-Copied r k fit nz h = record {
    room = omega (arith, h.room);
    ended = ap r (shift s) ∙ h.ended;
    copied = λ i a b lt ea eb. elim (ℕ_discrete i 0) [
      | yes z ↦
          let here : t ≡ b = omega arith in
          (
            h.outside a (inl (omega arith)) ∙ write_self m s (m t) a (omega arith) ∙ ap m here,
            (λ e. nz (ap m here ∙ e)),
          )
      | no ne ↦
          let (same, full) = h.copied (i - 1) a b (omega arith) (omega arith) (omega arith) in
          let old = write_ne m s (m t) b (foreign i b (omega (arith, h.room)) eb) in
          (same ∙ old, (λ e. full (old ∙ e)))
    ];
    whole = ending h.whole;
    outside = λ a o. h.outside a (past a o) ∙ write_ne m s (m t) a (beside a o);
  }
    where
      shift : (s : ℕ) → s + suc k ≡ s + 1 + k
      shift s = omega arith

      foreign : (i b : ℕ) → i < suc (suc n) → b ≡ t + i → s ≢ b
      foreign i b lt e = elim fit [ inl lo ↦ omega arith | inr hi ↦ omega arith ]

      ending :
          (k + 1 ≡ suc n) ⊎ (first (t + 1 + k) ≡ 0)
          → (suc k + 1 ≡ suc (suc n)) ⊎ (m (t + suc k) ≡ 0)
      ending (inl last) = inl (omega arith)
      ending (inr z) = inr (
          ap m (shift t)
          ∙ sym (
              write_ne m s (m t) (t + 1 + k)
                (foreign (suc k) (t + 1 + k) (omega (arith, h.room)) (omega arith)))
          ∙ z)

      past : (a : ℕ) → (a < s) ⊎ (s + suc (suc n) ≤ a) → (a < s + 1) ⊎ (s + 1 + suc n ≤ a)
      past a (inl lo) = inl (omega arith)
      past a (inr hi) = inr (omega arith)

      beside : (a : ℕ) → (a < s) ⊎ (s + suc (suc n) ≤ a) → s ≢ a
      beside a (inl lo) = omega arith
      beside a (inr hi) = omega arith

copy_text-Copied :
    (n s t : ℕ) (m : ℕ → ℕ)
    → (t + suc n ≤ s) ⊎ (s + suc n ≤ t)
    → (k : ℕ) × Copied m s t (suc n) (copy_text n s t m) k
unfolding copy_text first
copy_text-Copied zero s t m fit = (0, full-Copied m s t 0)
copy_text-Copied (suc n) s t m fit = elim (Bool-cases (m t == 0)) [
  | inl z ↦ rw z (0, end-Copied m s t n (ground arith))
  | inr nz ↦
      let (k, c) = copy_text-Copied n (s + 1) (t + 1) (write m s (m t)) (step fit) in
      rw nz (suc k, next-Copied m s t n _ k fit (ground arith) c)
]
  where
    step :
        (t + suc (suc n) ≤ s) ⊎ (s + suc (suc n) ≤ t)
        → (t + 1 + suc n ≤ s + 1) ⊎ (s + 1 + suc n ≤ t + 1)
    step (inl lo) = inl (omega arith)
    step (inr hi) = inr (omega arith)

-- safestrcpy into `n > 0` bytes at `s` that do not overlap with `n` bytes at `t` leaves a text that
-- ends within them: the text at `t`, cut to `n - 1` characters. It writes nothing outside them.
pub safestrcpy-Copied :
    (n s t : ℕ) (m : ℕ → ℕ)
    → (t + suc n ≤ s) ⊎ (s + suc n ≤ t)
    → (k : ℕ) × Copied m s t (suc n) (safestrcpy s t (suc n) m) k
unfolding safestrcpy
safestrcpy-Copied n s t m fit = copy_text-Copied n s t m fit
