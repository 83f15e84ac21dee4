-- ===== src/Inode/Truncate/Freed.antt =====
-- Blocks that itrunc of fs.c gives back one after another.
use xv6_fork.Prelude.{
  ℕ, zero, suc, ◌+◌, ◌/◌, ◌%◌, ◌<◌, ◌≤◌, ◌≡◌, ◌≢◌, refl, sym, ap, ◌∙◌, arith, true, false, some,
  ◌==◌, if◌then◌else◌, Bool,
}
use mathlib.Core.Path.{subst}
use native.Mathlib.Decide.{ℕ_discrete}
use xv6_fork.Fs.{Fs, bpb, bblock, bfree, clear_bit}
use xv6_fork.Fs.Bitmap.{used, IsBytes, used-clear_bit, clear_bit-IsBytes}
use xv6_fork.Fs.Taking.{bfree-used}

-- 141 block numbers; those that are not 0 are different marked blocks outside of the bitmap.
pub record AreBlocks (fs : Fs) (v : ℕ → ℕ) : Type 0 where
  pub bytes : IsBytes fs
  pub inside : (k : ℕ) → k < 141 → v k ≢ 0 → v k < fs.size
  pub marked : (k : ℕ) → k < 141 → v k ≢ 0 → used fs (v k) ≡ true
  pub unmapped : (k y : ℕ) → k < 141 → v k ≢ 0 → y < fs.size → bblock y fs ≢ v k
  pub apart : (i k : ℕ) → i < 141 → k < 141 → v i ≢ 0 → v i ≡ v k → i ≡ k

-- The first `n` of them have been freed, and nothing else has changed.
pub record Freed (fs : Fs) (v : ℕ → ℕ) (n : ℕ) (fs' : Fs) : Type 0 where
  pub size : fs'.size ≡ fs.size
  pub bmapstart : fs'.bmapstart ≡ fs.bmapstart
  pub inodestart : fs'.inodestart ≡ fs.inodestart
  pub bytes : IsBytes fs'
  pub freed : (k : ℕ) → k < n → v k ≢ 0 → used fs' (v k) ≡ false
  pub kept : (y : ℕ) → ((k : ℕ) → k < n → v k ≢ 0 → v k ≢ y) → used fs' y ≡ used fs y
  pub same : (b i : ℕ) → ((y : ℕ) → y < fs.size → bblock y fs ≢ b) → fs'.block b i ≡ fs.block b i

pub Freed-none : (fs : Fs) (v : ℕ → ℕ) → IsBytes fs → Freed fs v 0 fs
Freed-none fs v bytes = record {
  size = refl;
  bmapstart = refl;
  inodestart = refl;
  bytes = bytes;
  freed = λ k lt. absurd (omega arith);
  kept = λ y h. refl;
  same = λ b i h. refl;
}

if_same : (x y : ℕ) (b : Bool) → x ≡ y → (if x == y then false else b) ≡ false
if_same x y b e = ground arith

if_other : (x y : ℕ) (b : Bool) → x ≢ y → (if x == y then false else b) ≡ b
if_other x y b ne = ground arith

if_freed : (x y : ℕ) (b : Bool) → b ≡ false → (if x == y then false else b) ≡ false
if_freed x y b e = ground arith

module _ {fs : Fs} {v : ℕ → ℕ} (owned : AreBlocks fs v) where
  -- A number that is 0 is passed over.
  pub Freed-zero : (n : ℕ) (fs' : Fs) → Freed fs v n fs' → v n ≡ 0 → Freed fs v (suc n) fs'
  Freed-zero n fs' f z = record {
    size = f.size;
    bmapstart = f.bmapstart;
    inodestart = f.inodestart;
    bytes = f.bytes;
    freed = λ k lt nz. elim (ℕ_discrete k n) [
      | yes e ↦ absurd (nz (ap v e ∙ z))
      | no ne ↦ f.freed k (omega arith) nz
    ];
    kept = λ y h. f.kept y (λ k lt. h k (omega arith));
    same = f.same;
  }

  pub Freed-zeros :
      (m n end : ℕ) (fs' : Fs)
      → m + n ≡ end
      → Freed fs v n fs'
      → ((k : ℕ) → n ≤ k → k < end → v k ≡ 0)
      → Freed fs v end fs'
  Freed-zeros zero n end fs' e f z =
      let here : n ≡ end = omega arith in subst (λ k. Freed fs v k fs') here f
  Freed-zeros (suc m) n end fs' e f z =
      Freed-zeros m (suc n) end fs' (omega arith)
        (Freed-zero n fs' f (z n (omega arith) (omega arith))) (λ k le lt. z k (omega arith) lt)

  module _ (n : ℕ) (fs' : Fs) (f : Freed fs v n fs') (lt : n < 141) (nz : v n ≢ 0) where
    still_marked : used fs' (v n) ≡ true
    still_marked =
        f.kept (v n) (λ k l knz e. absurd (omega (arith, owned.apart k n (omega arith) lt knz e)))
        ∙ owned.marked n lt nz

    abbrev after : Fs
    after = clear_bit (v n) (v n % bpb) fs'

    bfree-after : bfree (v n) fs' ≡ some after
    bfree-after = bfree-used fs' (v n) still_marked

    after-used : (y : ℕ) → used after y ≡ (if v n == y then false else used fs' y)
    after-used = used-clear_bit fs' f.bytes (v n) still_marked

    after-Freed : Freed fs v (suc n) after
    after-Freed = record {
      size = f.size;
      bmapstart = f.bmapstart;
      inodestart = f.inodestart;
      bytes = clear_bit-IsBytes fs' f.bytes (v n);
      freed = λ k l knz. elim (ℕ_discrete k n) [
        | yes e ↦ after-used (v k) ∙ if_same (v n) (v k) (used fs' (v k)) (ap v (sym e))
        | no ne ↦
            after-used (v k) ∙ if_freed (v n) (v k) (used fs' (v k)) (f.freed k (omega arith) knz)
      ];
      kept = λ y h.
          after-used y
          ∙ if_other (v n) y (used fs' y) (h n (omega arith) nz)
          ∙ f.kept y (λ k l. h k (omega arith));
      same = λ b i h. off_bitmap b i (h (v n) (owned.inside n lt nz)) ∙ f.same b i h;
    }
      where
        off_bitmap : (b i : ℕ) → bblock (v n) fs ≢ b → after.block b i ≡ fs'.block b i
        off_bitmap b i ne =
            let e : bblock (v n) fs' ≡ bblock (v n) fs = ap (λ s. v n / bpb + s) f.bmapstart in
            let other : (bblock (v n) fs' == b) ≡ false = ground arith in rw other refl

    -- bfree of the next one that is not 0 succeeds.
    pub Freed-next : (fs'' : Fs) × (bfree (v n) fs' ≡ some fs'') × Freed fs v (suc n) fs''
    Freed-next = (after, bfree-after, after-Freed)
