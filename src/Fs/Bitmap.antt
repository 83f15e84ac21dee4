-- ===== src/Fs/Bitmap.antt =====
-- The bitmap of fs.c as a set of used blocks.
use xv6_fork.Prelude.{
  ℕ, ◌+◌, ◌-◌, ◌/◌, ◌%◌, ◌^◌, ◌<◌, ◌≡◌, ◌≢◌, ap, ◌∙◌, arith, Bool, true, false, if◌then◌else◌, ◌==◌,
}
use native.Mathlib.Decide.{ℕ_discrete}
use xv6_fork.Fs.{Fs, bpb, bblock, write_byte, has_bit, test_bit, set_bit, clear_bit}
use xv6_fork.Fs.Bits.{has_bit-set, has_bit-clear}

-- The bitmap says that the block is used.
abbrev pub used : Fs → ℕ → Bool
used fs x = test_bit x (x % bpb) fs

abbrev pub IsBytes : Fs → Type 0
IsBytes fs = (k i : ℕ) → fs.block k i < 256

-- The bit of another block is in another byte, or another bit of the byte.
same_byte :
    (x y : ℕ)
    → (x / bpb == y / bpb) ≡ true
    → (x % bpb / 8 == y % bpb / 8) ≡ true
    → (x % bpb % 8 == y % bpb % 8) ≡ (x == y)
same_byte x y g o = elim (ℕ_discrete x y) [ yes e ↦ ground arith | no ne ↦ ground arith ]

module _ (fs : Fs) (x v : ℕ) (b : Bool)
    (changes : (w : ℕ)
      → w < 8
      → has_bit v w
        ≡ (if x % bpb % 8 == w then b else has_bit (fs.block (bblock x fs) (x % bpb / 8)) w)) where
  abbrev changed : Fs
  changed = record fs { block = write_byte fs.block (bblock x fs) (x % bpb / 8) v }

  elsewhere :
      (y : ℕ)
      → changed.block (bblock y fs) (y % bpb / 8) ≡ fs.block (bblock y fs) (y % bpb / 8)
      → x ≢ y
      → used changed y ≡ (if x == y then b else used fs y)
  elsewhere y same ne =
      let other : (x == y) ≡ false = ground arith in
      rw other (ap (λ z. has_bit z (y % bpb % 8)) same)

  used-changed : (y : ℕ) → used changed y ≡ (if x == y then b else used fs y)
  used-changed y = elim (ℕ_discrete (x / bpb) (y / bpb)) [
    | yes group ↦ elim (ℕ_discrete (x % bpb / 8) (y % bpb / 8)) [
      | yes offset ↦
          let here : changed.block (bblock y fs) (y % bpb / 8) ≡ v = ground arith in
          let block_same : bblock x fs ≡ bblock y fs = omega arith in
          let old : fs.block (bblock x fs) (x % bpb / 8) ≡ fs.block (bblock y fs) (y % bpb / 8) =
            ap (λ k. fs.block k (x % bpb / 8)) block_same ∙ ap (fs.block (bblock y fs)) offset in
          ap (λ z. has_bit z (y % bpb % 8)) here
          ∙ changes (y % bpb % 8) (omega arith)
          ∙ ap (λ t. if t then b else has_bit (fs.block (bblock x fs) (x % bpb / 8)) (y % bpb % 8))
              (same_byte x y (ground arith) (ground arith))
          ∙ ap (λ z. if x == y then b else has_bit z (y % bpb % 8)) old
      | no other ↦ elsewhere y (ground arith) (λ e. other (ap (λ n. n % bpb / 8) e))
    ]
    | no apart ↦ elsewhere y (ground arith) (λ e. apart (ap (λ n. n / bpb) e))
  ]

module _ (fs : Fs) (bytes : IsBytes fs) (x : ℕ) where
  abbrev byte_of : ℕ
  byte_of = fs.block (bblock x fs) (x % bpb / 8)

  pub used-set_bit :
      used fs x ≡ false
      → (y : ℕ) → used (set_bit x (x % bpb) fs) y ≡ (if x == y then true else used fs y)
  used-set_bit free =
      used-changed fs x (byte_of + 2 ^ (x % bpb % 8)) true
        (λ w lw. (has_bit-set byte_of (x % bpb % 8) w (bytes _ _) (omega arith) lw free).0)

  pub used-clear_bit :
      used fs x ≡ true
      → (y : ℕ) → used (clear_bit x (x % bpb) fs) y ≡ (if x == y then false else used fs y)
  used-clear_bit taken =
      used-changed fs x (byte_of - 2 ^ (x % bpb % 8)) false
        (λ w lw. has_bit-clear byte_of (x % bpb % 8) w (bytes _ _) (omega arith) lw taken)

  pub set_bit-IsBytes : used fs x ≡ false → IsBytes (set_bit x (x % bpb) fs)
  set_bit-IsBytes free k i =
      let small =
        (has_bit-set byte_of (x % bpb % 8) 0 (bytes _ _) (omega arith) (omega arith) free).1 in
      ground (arith, bytes k i)

  pub clear_bit-IsBytes : IsBytes (clear_bit x (x % bpb) fs)
  clear_bit-IsBytes k i = ground (arith, bytes k i, bytes (bblock x fs) (x % bpb / 8))
