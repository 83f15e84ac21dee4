-- ===== src/Text/Move.antt =====
-- memmove of string.c, for arrays that may overlap.
use xv6_fork.Prelude.{
  ℕ, zero, suc, ◌+◌, ◌-◌, ap, ◌≡◌, ◌≤◌, ◌<◌, ◌≢◌, ◌⊎◌, inl, inr, Bool-cases, arith, false, ◌&&◌,
  ltb, refl, ◌∙◌,
}
use native.Mathlib.Decide.{ℕ_discrete}
use xv6_fork.Text.{write, copy_down, copy_up, memmove}

-- `n` bytes from `src` are at `dst`, and nothing else has changed.
pub record Copies (m : ℕ → ℕ) (dst src n : ℕ) (r : ℕ → ℕ) : Type 0 where
  pub inside : (i a b : ℕ) → i < n → a ≡ dst + i → b ≡ src + i → r a ≡ m b
  pub outside : (a : ℕ) → (a < dst) ⊎ (dst + n ≤ a) → r a ≡ m a

write_self : (m : ℕ → ℕ) (a v b : ℕ) → a ≡ b → write m a v b ≡ v
write_self m a v b e = ground arith

write_ne : (m : ℕ → ℕ) (a v b : ℕ) → a ≢ b → write m a v b ≡ m b
write_ne m a v b ne = ground arith

-- After the first byte of an upward copy, the rest.
up-Copies :
    (n dst src : ℕ) (m r : ℕ → ℕ)
    → (dst ≤ src) ⊎ (src + suc n ≤ dst)
    → Copies (write m dst (m src)) (dst + 1) (src + 1) n r
    → Copies m dst src (suc n) r
up-Copies n dst src m r fit h = record {
  inside = λ i a b lt ea eb. elim (ℕ_discrete i 0) [
    | yes z ↦
        h.outside a (inl (omega arith))
        ∙ write_self m dst (m src) a (omega arith)
        ∙ ap m (omega arith)
    | no nz ↦
        h.inside (i - 1) a b (omega arith) (omega arith) (omega arith)
        ∙ write_ne m dst (m src) b (omega arith)
  ];
  outside = λ a o. h.outside a (wider a o) ∙ write_ne m dst (m src) a (omega arith);
}
  where
    wider : (a : ℕ) → (a < dst) ⊎ (dst + suc n ≤ a) → (a < dst + 1) ⊎ (dst + 1 + n ≤ a)
    wider a (inl lo) = inl (omega arith)
    wider a (inr hi) = inr (omega arith)

copy_up-Copies :
    (n dst src : ℕ) (m : ℕ → ℕ)
    → (dst ≤ src) ⊎ (src + n ≤ dst)
    → Copies m dst src n (copy_up n dst src m)
unfolding copy_up
copy_up-Copies zero dst src m fit = record {
  inside = λ i a b lt ea eb. absurd (omega arith);
  outside = λ a o. refl;
}
copy_up-Copies (suc n) dst src m fit =
    up-Copies n dst src m _ fit
      (copy_up-Copies n (dst + 1) (src + 1) (write m dst (m src)) (step fit))
  where
    step : (dst ≤ src) ⊎ (src + suc n ≤ dst) → (dst + 1 ≤ src + 1) ⊎ (src + 1 + n ≤ dst + 1)
    step (inl lo) = inl (omega arith)
    step (inr hi) = inr (omega arith)

-- After the last byte of a downward copy, the rest.
down-Copies :
    (n dst src d s : ℕ) (m r : ℕ → ℕ)
    → src < dst
    → d ≡ dst + n
    → s ≡ src + n
    → Copies (write m d (m s)) dst src n r
    → Copies m dst src (suc n) r
down-Copies n dst src d s m r fit ed es h = record {
  inside = λ i a b lt ea eb. elim (ℕ_discrete i n) [
    | yes z ↦
        h.outside a (inr (omega arith)) ∙ write_self m d (m s) a (omega arith) ∙ ap m (omega arith)
    | no nz ↦ h.inside i a b (omega arith) ea eb ∙ write_ne m d (m s) b (omega arith)
  ];
  outside = λ a o. h.outside a (wider a o) ∙ write_ne m d (m s) a (omega arith);
}
  where
    wider : (a : ℕ) → (a < dst) ⊎ (dst + suc n ≤ a) → (a < dst) ⊎ (dst + n ≤ a)
    wider a (inl lo) = inl lo
    wider a (inr hi) = inr (omega arith)

copy_down-Copies :
    (n dst src d s : ℕ) (m : ℕ → ℕ)
    → src < dst
    → d ≡ dst + n
    → s ≡ src + n
    → Copies m dst src n (copy_down n d s m)
unfolding copy_down
copy_down-Copies zero dst src d s m fit ed es = record {
  inside = λ i a b lt ea eb. absurd (omega arith);
  outside = λ a o. refl;
}
copy_down-Copies (suc n) dst src d s m fit ed es =
    down-Copies n dst src (d - 1) (s - 1) m _ fit (omega arith) (omega arith) (
      copy_down-Copies n dst src (d - 1) (s - 1) (write m (d - 1) (m (s - 1))) fit (omega arith)
        (omega arith))

-- memmove leaves at `dst` the `n` bytes that were at `src`, however the two overlap, and changes
-- nothing else.
pub memmove-Copies : (dst src n : ℕ) (m : ℕ → ℕ) → Copies m dst src n (memmove dst src n m)
unfolding memmove
memmove-Copies dst src n m = elim (Bool-cases (ltb src dst && ltb dst (src + n))) [
  | inl down ↦ rw down (copy_down-Copies n dst src (dst + n) (src + n) m (ground arith) refl refl)
  | inr up ↦ rw up (copy_up-Copies n dst src m (apart up))
]
  where
    apart : (ltb src dst && ltb dst (src + n)) ≡ false → (dst ≤ src) ⊎ (src + n ≤ dst)
    apart up = elim (Bool-cases (ltb src dst)) [
      | inl lo ↦ inr (ground arith)
      | inr hi ↦ inl (ground arith)
    ]
