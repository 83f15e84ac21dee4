-- ===== src/Print/Digits.antt =====
-- The digits that printint stores: what they are, and how many fit.
use xv6_fork.Prelude.{
  ℕ, zero, suc, ◌+◌, ◌-◌, ◌/◌, ◌%◌, ◌≤◌, ◌<◌, ◌≡◌, ◌∙◌, ◌⊎◌, inl, inr, Bool-cases, arith, Bool,
  true, ◌&&◌, List, [], ◌∷◌, ◌++◌, ◌==◌, get_or, length, length-append,
}
use xv6_fork.Print.{upper_digits, lower_digits, store_digits, is_negative, fill_buf}

-- `x` divided by `b`, `k` times.
abbrev pub divided : ℕ → ℕ → ℕ → ℕ
divided zero x b = x
divided (suc k) x b = divided k (x / b) b

pub word_divided : (x : ℕ) → x < 0x100000000 → divided 10 x 10 ≡ 0
word_divided x h = omega arith

word_divided_hex : (x : ℕ) → x < 0x100000000 → divided 8 x 16 ≡ 0
word_divided_hex x h = omega arith

-- No more digits than divisions that reach 0.
length-store_digits :
    (k f : ℕ) (digits : List ℕ) (x b : ℕ)
    → divided (suc k) x b ≡ 0
    → length (store_digits f digits x b) ≤ suc k
unfolding store_digits
length-store_digits k zero digits x b e = omega arith
length-store_digits zero (suc f) digits x b e =
    let last : (x / b == 0) ≡ true = ground arith in rw last (omega arith)
length-store_digits (suc k) (suc f) digits x b e = elim (Bool-cases (x / b == 0)) [
  | inl last ↦ rw last (omega arith)
  | inr more ↦ rw more (omega (arith, length-store_digits k f digits (x / b) b e))
]

length-add_sign : (s : List ℕ) → length (s ++ (b'-' ∷ [])) ≡ length s + 1
length-add_sign s = length-append s (b'-' ∷ [])

-- printint stores at most 11 bytes in its `buf` of 16, for either base that its callers use.
pub fill_buf-le :
    (digits : List ℕ) (xx base : ℕ) (sgn : Bool)
    → xx < 0x100000000
    → (base ≡ 10) ⊎ (base ≡ 16)
    → length (fill_buf digits xx base sgn) ≤ 11
unfolding fill_buf
fill_buf-le digits xx base sgn h b = elim (Bool-cases (sgn && is_negative xx)) [
  | inl neg ↦
      rw (neg, length-add_sign (store_digits 32 digits ((0x100000000 - xx) % 0x100000000) base))
        (omega (arith, few ((0x100000000 - xx) % 0x100000000) (omega arith) b))
  | inr plain ↦ rw plain (omega (arith, few xx h b))
]
  where
    few :
        (x : ℕ)
        → x < 0x100000000
        → (base ≡ 10) ⊎ (base ≡ 16)
        → length (store_digits 32 digits x base) ≤ 10
    few x lt (inl ten) = rw ten (length-store_digits 9 32 digits x 10 (word_divided x lt))
    few x lt (inr hex) =
        rw hex (omega (arith, length-store_digits 7 32 digits x 16 (word_divided_hex x lt)))

-- The first `n` characters of a table count up from `k`.
abbrev Climbs : ℕ → ℕ → List ℕ → Type 0
Climbs zero k table = Unit {0}
Climbs (suc n) k [] = ⊥
Climbs (suc n) k (d ∷ table) = (d ≡ k) × Climbs n (k + 1) table

get_or-Climbs : (n k v : ℕ) (table : List ℕ) → Climbs n k table → v < n → get_or table v 0 ≡ k + v
get_or-Climbs zero k v table c h = absurd (omega arith)
get_or-Climbs (suc n) k v [] c h = absurd c
get_or-Climbs (suc n) k zero (d ∷ table) c h = c.0 ∙ omega arith
get_or-Climbs (suc n) k (suc v) (d ∷ table) c h =
    get_or-Climbs n (k + 1) v table c.1 (omega arith) ∙ omega arith

-- A table of digits that starts with the ten decimal ones.
abbrev pub IsDecimal : List ℕ → Type 0
IsDecimal digits = (v : ℕ) → v < 10 → get_or digits v 0 ≡ b'0' + v

pub upper_digits-IsDecimal : IsDecimal upper_digits
upper_digits-IsDecimal v h = get_or-Climbs 10 b'0' v upper_digits (omega arith) h

pub lower_digits-IsDecimal : IsDecimal lower_digits
lower_digits-IsDecimal v h = get_or-Climbs 10 b'0' v lower_digits (omega arith) h
