-- ===== src/Inode/Read.antt =====
-- readi of fs.c returns the bytes of the file.
use xv6_fork.Prelude.{
  ℕ, zero, suc, ◌+◌, ◌-◌, ◌*◌, ◌/◌, ◌%◌, ◌^◌, ◌<◌, ◌≤◌, ◌≡◌, ◌≢◌, refl, sym, ap, ◌∙◌, arith, min,
  if◌then◌else◌, ◌==◌, inl, inr, ltb, leb, ◌++◌, some, Bool, true, false, Bool-cases, ◌||◌, add32,
}
use xv6_fork.Fs.{Fs}
use xv6_fork.Inode.{
  Inode, uint_at, direct, indirect, bmap, readi_from, got, read_refused, readi, t_dev, max_size,
}
use xv6_fork.Inode.Slots.{slot, index, slot_direct, slot_beyond, slot_none}
use xv6_fork.Inode.Bytes.{window, window-append, slice-window}

direct-found :
    (i : ℕ) (ip : Inode) (fs : Fs) → ip.addrs i ≢ 0 → direct i ip fs ≡ some (ip.addrs i, ip, fs)
unfolding direct
direct-found i ip fs nz = let e : (ip.addrs i == 0) ≡ false = ground arith in rw e refl

indirect-found :
    (k bn : ℕ) (ip : Inode) (fs : Fs)
    → uint_at fs k bn ≢ 0
    → indirect k bn ip fs ≡ some (uint_at fs k bn, ip, fs)
unfolding indirect
indirect-found k bn ip fs nz = let e : (uint_at fs k bn == 0) ≡ false = ground arith in rw e refl

-- bmap changes nothing where the file has a block.
pub bmap-found :
    (bn : ℕ) (ip : Inode) (fs : Fs)
    → bn < 140
    → slot ip fs (index bn) ≢ 0
    → bmap bn ip fs ≡ some (slot ip fs (index bn), ip, fs)
unfolding bmap
bmap-found bn ip fs lt nz = elim (Bool-cases (ltb bn 12)) [
  | inl low ↦
      let i : index bn ≡ bn = rw low refl in
      let s : slot ip fs (index bn) ≡ ip.addrs bn =
        ap (slot ip fs) i ∙ slot_direct ip fs bn (ground arith) in
      let found : bmap bn ip fs ≡ some (ip.addrs bn, ip, fs) =
        rw low (direct-found bn ip fs (λ z. nz (s ∙ z))) in
      found ∙ ap (λ a. some (a, ip, fs)) (sym s)
  | inr high ↦
      let i : index bn ≡ bn + 1 = rw high refl in
      let lo : 12 < bn + 1 = ground arith in
      let there : bn + 1 - 13 ≡ bn - 12 = omega arith in
      let full : ip.addrs 12 ≢ 0 = λ z. nz (ap (slot ip fs) i ∙ slot_none ip fs (bn + 1) lo z) in
      let s : slot ip fs (index bn) ≡ uint_at fs (ip.addrs 12) (bn - 12) =
        ap (slot ip fs) i
        ∙ slot_beyond ip fs (bn + 1) lo full
        ∙ ap (uint_at fs (ip.addrs 12)) there in
      let inside : ltb (bn - 12) 128 ≡ true = ground arith in
      let first = direct-found 12 ip fs full in
      let found : bmap bn ip fs ≡ some (uint_at fs (ip.addrs 12) (bn - 12), ip, fs) =
        rw (high, inside, first) (indirect-found (ip.addrs 12) (bn - 12) ip fs (λ z. nz (s ∙ z))) in
      found ∙ ap (λ a. some (a, ip, fs)) (sym s)
]

-- The blocks of the first `n` bytes are there.
abbrev pub IsFilled : Inode → Fs → ℕ → Type 0
IsFilled ip fs n = (bn : ℕ) → bn * 512 < n → slot ip fs (index bn) ≢ 0

readi_from-window :
    (fuel off left : ℕ) (ip : Inode) (fs : Fs)
    → left ≤ fuel
    → off + left ≤ max_size
    → IsFilled ip fs (off + left)
    → readi_from fuel off left ip fs ≡ some (window ip fs off left, ip, fs)
unfolding readi_from
readi_from-window fuel off zero ip fs le fit filled = refl
readi_from-window zero off (suc left) ip fs le fit filled = absurd (omega arith)
readi_from-window (suc fuel) off (suc left) ip fs le fit filled =
    let m = min (suc left) (512 - off % 512) in
    let found = bmap-found (off / 512) ip fs (omega arith) (filled (off / 512) (omega arith)) in
    let rest =
      readi_from-window fuel (off + m) (suc left - m) ip fs (omega arith) (omega arith)
        (λ bn lt. filled bn (omega arith)) in
    let all : m + (suc left - m) ≡ suc left = omega arith in
    rw (readi_from, found, rest)
      (ap (λ bytes. some (bytes, ip, fs))
        (ap (λ t. t ++ window ip fs (off + m) (suc left - m))
            (slice-window ip fs (slot ip fs (index (off / 512))) (off % 512) off m refl refl
              (omega arith))
          ∙ sym (window-append ip fs off m (suc left - m))
          ∙ ap (window ip fs off) all))

-- readi of a file or a directory whose blocks are there refuses an offset behind its end and a sum
-- that wraps; otherwise it returns the bytes from `off` on, `n` of them or as many as there are.
-- It changes nothing.
pub readi-window :
    (has_read : ℕ → Bool) (off n : ℕ) (ip : Inode) (fs : Fs)
    → (ip.type == t_dev) ≡ false
    → ip.size ≤ max_size
    → n < 2 ^ 32
    → IsFilled ip fs ip.size
    → readi has_read off n ip fs ≡ (
        if ltb ip.size off || leb (2 ^ 32) (off + n)
        then some (read_refused, ip, fs)
        else some (got (min n (ip.size - off)) (window ip fs off (min n (ip.size - off))), ip, fs))
unfolding readi
readi-window has_read off n ip fs file small wide filled =
    elim (Bool-cases (ltb ip.size off || leb (2 ^ 32) (off + n))) [
      | inl refused ↦
          let guard : (ltb ip.size off || ltb (add32 off n) off) ≡ true = ground arith in
          rw (file, guard, refused) refl
      | inr admitted ↦
          let guard : (ltb ip.size off || ltb (add32 off n) off) ≡ false = ground arith in
          let within : off ≤ ip.size = ground arith in
          let m = min n (ip.size - off) in
          let amount : (if ltb ip.size (add32 off n) then ip.size - off else n) ≡ m =
            ground arith in
          let bytes =
            readi_from-window m off m ip fs (omega arith) (omega arith)
              (λ bn lt. filled bn (omega arith)) in
          rw (file, guard, admitted, amount, readi, bytes)
            (ap (λ k. some (got k (window ip fs off m), ip, fs)) amount)
    ]
