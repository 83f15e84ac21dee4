-- ===== src/Log/Disk.antt =====
-- The disk and the buffer cache (bio.c, ide.c) as log.c uses them through bread, bwrite and brelse.
-- A clean buffer equals its disk block, so only the dirty ones are kept apart, whether or not clean
-- ones are evicted. `power` counts the disk writes that happen before the machine stops.
use xv6_fork.Prelude.{
  ℕ, zero, suc, ◌-◌, ◌<◌, ◌≡◌, refl, ◌≢◌, arith, Option, none, some, List, ◌==◌, if◌then◌else◌,
}

-- A block of 512 bytes, as 128 words.
abbrev pub Block : Type 0
Block = List ℕ

pub record Device : Type 0 where
  pub disk : ℕ → Block
  pub dirty : ℕ → Option Block
  pub power : ℕ

abbrev pub update {ℓ} : {A : Type ℓ} → (ℕ → A) → ℕ → A → ℕ → A
update f b v c = if b == c then v else f c

-- What bread(dev, b) shows in `data`.
abbrev pub contents : Device → ℕ → Block
contents d b = elim (d.dirty b) [ none ↦ d.disk b | some v ↦ v ]

-- Setting the data of block b and calling bwrite. iderw clears B_DIRTY.
abbrev pub write_at : ℕ → Device → ℕ → Block → Device
write_at zero d b v = d
write_at (suc k) d b v = record d {
  disk = update d.disk b v;
  dirty = update d.dirty b none;
  power = k;
}

abbrev pub bwrite : Device → ℕ → Block → Device
bwrite d b v = write_at d.power d b v

-- The machine starts again with an empty cache and runs for `k` disk writes.
abbrev pub reboot : ℕ → Device → Device
reboot k d = record d { dirty = λ b. none; power = k }

pub power-bwrite : (d : Device) (b : ℕ) (v : Block) → (bwrite d b v).power ≡ d.power - 1
power-bwrite d b v = go d.power refl
  where
    go : (k : ℕ) → d.power ≡ k → (write_at k d b v).power ≡ d.power - 1
    go zero e = omega arith
    go (suc k) e = omega arith

-- A write that happens, and what any write leaves alone.
pub bwrite_self :
    (d : Device) (b : ℕ) (v : Block)
    → 0 < d.power
    → ((bwrite d b v).disk b ≡ v) × ((bwrite d b v).dirty b ≡ none)
bwrite_self d b v h = go d.power h
  where
    go : (k : ℕ) → 0 < k → ((write_at k d b v).disk b ≡ v) × ((write_at k d b v).dirty b ≡ none)
    go zero p = absurd (omega arith)
    go (suc k) p = ground arith

pub bwrite_ne :
    (d : Device) (b : ℕ) (v : Block) (c : ℕ)
    → b ≢ c
    → ((bwrite d b v).disk c ≡ d.disk c) × ((bwrite d b v).dirty c ≡ d.dirty c)
bwrite_ne d b v c ne = go d.power
  where
    go : (k : ℕ) → ((write_at k d b v).disk c ≡ d.disk c) × ((write_at k d b v).dirty c ≡ d.dirty c)
    go zero = (refl, refl)
    go (suc k) = ground arith

pub bwrite-clean :
    (d : Device) (b : ℕ) (v : Block) (c : ℕ) → d.dirty c ≡ none → (bwrite d b v).dirty c ≡ none
bwrite-clean d b v c e = go d.power
  where
    go : (k : ℕ) → (write_at k d b v).dirty c ≡ none
    go zero = e
    go (suc k) = ground arith

pub contents-of_eq :
    (d e : Device) (b : ℕ)
    → d.disk b ≡ e.disk b
    → d.dirty b ≡ e.dirty b
    → contents d b ≡ contents e b
contents-of_eq d e b p q = ground arith

pub contents_clean : (d : Device) (b : ℕ) → d.dirty b ≡ none → contents d b ≡ d.disk b
contents_clean d b e = ground arith

pub update_ne {ℓ} : {A : Type ℓ} (f : ℕ → A) (b c : ℕ) (v : A) → b ≢ c → update f b v c ≡ f c
update_ne f b c v ne = ground arith
