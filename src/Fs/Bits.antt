-- ===== src/Fs/Bits.antt =====
-- Setting and clearing one bit of a byte.
use xv6_fork.Prelude.{
  ℕ, zero, suc, ◌+◌, ◌-◌, ◌^◌, ◌<◌, ◌≡◌, refl, arith, Bool, true, false, not, ◌&&◌, if◌then◌else◌,
  ◌==◌, ltb, ltb→lt,
}
use xv6_fork.Fs.{has_bit}

-- A test holds below a bound.
for_each : (ℕ → Bool) → ℕ → Bool
for_each test zero = true
for_each test (suc n) = if test n then for_each test n else false

for_each-at : (test : ℕ → Bool) (n i : ℕ) → i < n → for_each test n ≡ true → test i ≡ true
unfolding for_each
for_each-at test zero i lt h = absurd (omega arith)
for_each-at test (suc n) i lt h = ground (arith, for_each-at test n i)

abbrev agree : Bool → Bool → Bool
agree a b = if a then b else not b

agree-eq : (a b : Bool) → agree a b ≡ true → a ≡ b
agree-eq true b h = ground arith
agree-eq false b h = ground arith

-- Bit `v` of the byte changed, seen at bit `w`.
abbrev flips : ℕ → ℕ → ℕ → Bool
flips byte v w =
    if has_bit byte v
    then agree (has_bit (byte - 2 ^ v) w) (if v == w then false else has_bit byte w)
    else (agree (has_bit (byte + 2 ^ v) w) (if v == w then true else has_bit byte w)
        && ltb (byte + 2 ^ v) 256)

table : for_each (λ byte. for_each (λ v. for_each (flips byte v) 8) 8) 256 ≡ true
unfolding for_each
table = refl

flipped : (byte v w : ℕ) → byte < 256 → v < 8 → w < 8 → flips byte v w ≡ true
flipped byte v w b lv lw = for_each-at (flips byte v) 8 w lw (
    for_each-at (λ x. for_each (flips byte x) 8) 8 v lv
      (for_each-at (λ y. for_each (λ x. for_each (flips y x) 8) 8) 256 byte b table))

pub has_bit-set :
    (byte v w : ℕ)
    → byte < 256
    → v < 8
    → w < 8
    → has_bit byte v ≡ false
    → (has_bit (byte + 2 ^ v) w ≡ (if v == w then true else has_bit byte w)) × (byte + 2 ^ v < 256)
has_bit-set byte v w b lv lw clear =
    let both = rw clear at (flipped byte v w b lv lw) in
    let (same, small) = split _ _ both in
    (agree-eq (has_bit (byte + 2 ^ v) w) _ same, ltb→lt (byte + 2 ^ v) 256 small)
  where
    split : (p q : Bool) → (p && q) ≡ true → (p ≡ true) × (q ≡ true)
    split p q h = ground arith

pub has_bit-clear :
    (byte v w : ℕ)
    → byte < 256
    → v < 8
    → w < 8
    → has_bit byte v ≡ true
    → has_bit (byte - 2 ^ v) w ≡ (if v == w then false else has_bit byte w)
has_bit-clear byte v w b lv lw isset =
    agree-eq (has_bit (byte - 2 ^ v) w) _ (rw isset at (flipped byte v w b lv lw))
