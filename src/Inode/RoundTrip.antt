-- ===== src/Inode/RoundTrip.antt =====
-- What writei of fs.c has written, readi reads.
use xv6_fork.Prelude.{
  ℕ, suc, ◌+◌, ◌-◌, ◌*◌, ◌^◌, ◌<◌, ◌≤◌, ◌≡◌, refl, ap, ◌∙◌, arith, min, ◌==◌, inl, inr, ltb, leb,
  List, [], ◌∷◌, length, get_or, some, Bool, false, ◌||◌,
}
use mathlib.Core.Path.{ap₂}
use xv6_fork.Fs.{Fs}
use xv6_fork.Inode.{Inode, wrote, writei, got, readi, t_dev, max_size}
use xv6_fork.Inode.Slots.{IsInode}
use xv6_fork.Inode.Free.{free}
use xv6_fork.Inode.Bytes.{byte, window}
use xv6_fork.Inode.Read.{IsFilled, readi-window}
use xv6_fork.Inode.Stored.{AllBytes}
use xv6_fork.Inode.Loop.{rounds}
use xv6_fork.Inode.Update.{Stores, Result, writei-Result}

pub window-these :
    (ip : Inode) (fs : Fs) (bytes : List ℕ) (off : ℕ)
    → ((o j : ℕ) → j < length bytes → o ≡ off + j → byte ip fs o ≡ get_or bytes j 0)
    → window ip fs off (length bytes) ≡ bytes
window-these ip fs [] off h = refl
window-these ip fs (c ∷ cs) off h =
    ap₂ ◌∷◌ (h off 0 (omega arith) (omega arith))
      (window-these ip fs cs (off + 1) (λ o j lt e. h o (suc j) (omega arith) (omega arith)))

stored-read :
    (has_read : ℕ → Bool) (ip ip' : Inode) (fs fs' : Fs) (off : ℕ) (bytes : List ℕ)
    → (ip.type == t_dev) ≡ false
    → ip.size ≤ max_size
    → off ≤ ip.size
    → off + length bytes ≤ max_size
    → Stores ip fs off bytes ip' fs'
    → readi has_read off (length bytes) ip' fs' ≡ some (got (length bytes) bytes, ip', fs')
stored-read has_read ip ip' fs fs' off bytes file small within fit t =
    let kind : (ip'.type == t_dev) ≡ false = ap (λ n. n == t_dev) t.type ∙ file in
    let go : (ltb ip'.size off || leb (2 ^ 32) (off + length bytes)) ≡ false =
      ground (arith, t.size) in
    let all : min (length bytes) (ip'.size - off) ≡ length bytes = omega (arith, t.size) in
    let r =
      readi-window has_read off (length bytes) ip' fs' kind (omega (arith, t.size)) (omega arith)
        t.filled in
    r
    ∙ rw go (
        ap (λ n. some (got n (window ip' fs' off n), ip', fs')) all
        ∙ ap (λ bs. some (got (length bytes) bs, ip', fs'))
            (window-these ip' fs' bytes off t.inside))

-- A write that is admitted, to a file or a directory as in writei-Result, and a read of as many bytes
-- from the same place: the read returns the bytes written.
pub readi-writei :
    (has_read has_write : ℕ → Bool) (off : ℕ) (bytes : List ℕ) (ip : Inode) (fs : Fs)
    → (ip.type == t_dev) ≡ false
    → IsInode ip fs
    → IsFilled ip fs ip.size
    → ip.size ≤ max_size
    → off ≤ ip.size
    → off + length bytes ≤ max_size
    → AllBytes bytes
    → 2 * rounds off (length bytes) ≤ free fs
    → (ip' : Inode) × (fs' : Fs) × (writei has_write off bytes ip fs
        ≡ some (wrote (length bytes), ip', fs'))
      × (readi has_read off (length bytes) ip' fs' ≡ some (got (length bytes) bytes, ip', fs'))
unfolding Result
readi-writei has_read has_write off bytes ip fs file h filled small within fit all_bytes room =
    elim (writei-Result has_write off bytes ip fs file h filled small (omega arith) all_bytes
      room) [
        | inl (inl behind, e) ↦ absurd (omega arith)
        | inl (inr excess, e) ↦ absurd (omega arith)
        | inr (_, _, (ip', fs', e, t)) ↦
            (ip', fs', e, stored-read has_read ip ip' fs fs' off bytes file small within fit t)
      ]
