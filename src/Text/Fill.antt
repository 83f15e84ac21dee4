-- ===== src/Text/Fill.antt =====
-- memset of string.c: the word-wide and the byte-wide fill agree.
use xv6_fork.Prelude.{
  ℕ, zero, suc, ◌+◌, ◌*◌, ◌/◌, ◌%◌, ◌≡◌, ◌≤◌, ◌<◌, ◌⊎◌, inl, inr, Bool-cases, arith, true, ◌&&◌,
  ◌==◌, ltb, refl, ◌∙◌,
}
use mathlib.Core.Path.{subst}
use xv6_fork.Text.{write, stosb, stosl, spread, memset}

-- The `n` bytes at `dst` are `v`, and nothing else has changed.
pub record Fills (m : ℕ → ℕ) (dst n v : ℕ) (r : ℕ → ℕ) : Type 0 where
  pub inside : (a : ℕ) → dst ≤ a → a < dst + n → r a ≡ v
  pub outside : (a : ℕ) → (a < dst) ⊎ (dst + n ≤ a) → r a ≡ m a

Fills-join :
    (m s r : ℕ → ℕ) (dst k next n v : ℕ)
    → next ≡ dst + k
    → Fills m dst k v s
    → Fills s next n v r
    → Fills m dst (k + n) v r
Fills-join m s r dst k next n v e f g = record {
  inside = λ a lo hi. elim (Bool-cases (ltb a next)) [
    | inl before ↦ g.outside a (inl (ground arith)) ∙ f.inside a lo (ground arith)
    | inr after ↦ g.inside a (ground arith) (omega arith)
  ];
  outside = λ a o. g.outside a (past a o) ∙ f.outside a (beside a o);
}
  where
    past : (a : ℕ) → (a < dst) ⊎ (dst + (k + n) ≤ a) → (a < next) ⊎ (next + n ≤ a)
    past a (inl lo) = inl (omega arith)
    past a (inr hi) = inr (omega arith)

    beside : (a : ℕ) → (a < dst) ⊎ (dst + (k + n) ≤ a) → (a < dst) ⊎ (dst + k ≤ a)
    beside a (inl lo) = inl lo
    beside a (inr hi) = inr (omega arith)

byte-Fills : (m : ℕ → ℕ) (a w v : ℕ) → w ≡ v → Fills m a 1 v (write m a w)
byte-Fills m a w v e = record {
  inside = λ b lo hi. here b (omega arith);
  outside = λ b o. there b o;
}
  where
    here : (b : ℕ) → a ≡ b → write m a w b ≡ v
    here b q = ground arith

    there : (b : ℕ) → (b < a) ⊎ (a + 1 ≤ b) → write m a w b ≡ m b
    there b (inl lo) = ground arith
    there b (inr hi) = ground arith

stosb-Fills : (n a c : ℕ) (m : ℕ → ℕ) → Fills m a n (c % 256) (stosb n a c m)
unfolding stosb
stosb-Fills zero a c m = record { inside = λ b lo hi. absurd (omega arith); outside = λ b o. refl }
stosb-Fills (suc n) a c m =
    subst (λ k. Fills m a k (c % 256) (stosb n (a + 1) c (write m a (c % 256)))) (one_more n)
      (Fills-join m _ _ a 1 (a + 1) n (c % 256) refl (byte-Fills m a (c % 256) (c % 256) refl)
        (stosb-Fills n (a + 1) c (write m a (c % 256))))
  where
    one_more : (n : ℕ) → 1 + n ≡ suc n
    one_more n = omega arith

-- The four bytes of a spread byte are that byte.
abbrev word : (ℕ → ℕ) → ℕ → ℕ → ℕ → ℕ
word m a c =
    write (write (write (write m a (c % 256)) (a + 1) (c / 256 % 256)) (a + 2) (c / 65536 % 256))
      (a + 3) (c / 16777216 % 256)

word-Fills : (m : ℕ → ℕ) (a v : ℕ) → v < 256 → Fills m a 4 v (word m a (spread v))
word-Fills m a v lt =
    Fills-join m _ _ a 3 (a + 3) 1 v refl
      (Fills-join m _ _ a 2 (a + 2) 1 v refl
        (Fills-join m _ _ a 1 (a + 1) 1 v refl (byte-Fills m a _ v (omega arith))
          (byte-Fills _ (a + 1) _ v (omega arith)))
        (byte-Fills _ (a + 2) _ v (omega arith)))
      (byte-Fills _ (a + 3) _ v (omega arith))

stosl-Fills : (k a v : ℕ) (m : ℕ → ℕ) → v < 256 → Fills m a (4 * k) v (stosl k a (spread v) m)
unfolding stosl
stosl-Fills zero a v m lt = record {
  inside = λ b lo hi. absurd (omega arith);
  outside = λ b o. refl;
}
stosl-Fills (suc k) a v m lt =
    subst (λ n. Fills m a n v (stosl k (a + 4) (spread v) (word m a (spread v)))) (four_more k)
      (Fills-join m _ _ a 4 (a + 4) (4 * k) v refl (word-Fills m a v lt)
        (stosl-Fills k (a + 4) v (word m a (spread v)) lt))
  where
    four_more : (k : ℕ) → 4 + 4 * k ≡ 4 * suc k
    four_more k = omega arith

-- memset sets the `n` bytes at `dst` to the low byte of `c` and changes nothing else, whether it
-- stores words or bytes.
pub memset-Fills : (dst c n : ℕ) (m : ℕ → ℕ) → Fills m dst n (c % 256) (memset dst c n m)
unfolding memset
memset-Fills dst c n m = elim (Bool-cases ((dst % 4 == 0) && (n % 4 == 0))) [
  | inl aligned ↦ rw aligned (
      subst (λ k. Fills m dst k (c % 256) (stosl (n / 4) dst (spread (c % 256)) m)) (whole aligned)
        (stosl-Fills (n / 4) dst (c % 256) m (omega arith)))
  | inr odd ↦ rw odd (stosb-Fills n dst c m)
]
  where
    fours : n % 4 ≡ 0 → 4 * (n / 4) ≡ n
    fours e = omega arith

    whole : ((dst % 4 == 0) && (n % 4 == 0)) ≡ true → 4 * (n / 4) ≡ n
    whole aligned = fours (ground arith)
