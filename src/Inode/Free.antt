-- ===== src/Inode/Free.antt =====
-- The number of free blocks in the bitmap of fs.c.
use xv6_fork.Prelude.{
  ℕ, zero, suc, ◌+◌, ◌≤◌, ◌<◌, ◌≡◌, refl, sym, ap, ◌∙◌, arith, Bool, true, false, if◌then◌else◌,
  ◌==◌, ltb,
}
use mathlib.Core.Path.{ap₂}
use xv6_fork.Fs.{Fs}
use xv6_fork.Fs.Bitmap.{used}
use xv6_fork.Fs.Scan.{AllUsed}
use xv6_fork.Fs.Taking.{Takes}

-- The free blocks below `n`.
unfoldable pub free_below : ℕ → Fs → ℕ
free_below zero fs = 0
free_below (suc n) fs = free_below n fs + (if used fs n then 0 else 1)

abbrev pub free : Fs → ℕ
free fs = free_below fs.size fs

pub free_below-same :
    (n : ℕ) (a b : Fs) → ((y : ℕ) → y < n → used a y ≡ used b y) → free_below n a ≡ free_below n b
unfolding free_below
free_below-same zero a b h = refl
free_below-same (suc n) a b h =
    ap₂ (λ r u. r + (if u then 0 else 1)) (free_below-same n a b (λ y l. h y (omega arith)))
      (h n (omega arith))

pub free_below-full : (n : ℕ) (fs : Fs) → n ≤ fs.size → AllUsed fs 0 fs.size → free_below n fs ≡ 0
unfolding free_below
free_below-full zero fs le h = refl
free_below-full (suc n) fs le h =
    ap₂ (λ r u. r + (if u then 0 else 1)) (free_below-full n fs (omega arith) h)
      (h n (omega arith) (omega arith) (omega arith))

-- One more block in the count, with the mark it had, `b`, and has, `a`.
taken_step :
    (a b : Bool) (x n r' r : ℕ)
    → a ≡ (if x == n then true else b)
    → (x ≡ n → b ≡ false)
    → r' + (if ltb x n then 1 else 0) ≡ r
    → r' + (if a then 0 else 1) + (if ltb x (suc n) then 1 else 0) ≡ r + (if b then 0 else 1)
taken_step a b x n r' r marks free below = ground arith

taken_below :
    (n : ℕ) (fs after : Fs) (x : ℕ)
    → n ≤ fs.size
    → Takes fs x after
    → free_below n after + (if ltb x n then 1 else 0) ≡ free_below n fs
unfolding free_below
taken_below zero fs after x le t = ground arith
taken_below (suc n) fs after x le t =
    taken_step (used after n) (used fs n) x n (free_below n after) (free_below n fs)
      (t.marks n (omega arith)) (λ e. ap (used fs) (sym e) ∙ t.first.free)
      (taken_below n fs after x (omega arith) t)

-- balloc takes one.
pub free-Takes : (fs after : Fs) (x : ℕ) → Takes fs x after → free after + 1 ≡ free fs
free-Takes fs after x t =
    let below = taken_below fs.size fs after x (omega arith) t in
    let inside : ltb x fs.size ≡ true = ground (arith, t.first.inside) in
    let one = rw inside at below in ap (λ n. free_below n after + 1) t.size ∙ one
