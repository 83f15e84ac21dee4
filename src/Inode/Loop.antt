-- ===== src/Inode/Loop.antt =====
-- The loop of writei in fs.c, with free blocks enough, puts all bytes into the file.
use xv6_fork.Prelude.{
  ℕ, zero, suc, ◌+◌, ◌-◌, ◌*◌, ◌/◌, ◌%◌, ◌≤◌, ◌≡◌, refl, sym, ap, ◌∙◌, arith, min, if◌then◌else◌,
  ◌==◌, List, [], ◌∷◌, ◌++◌, length, take, drop, Option, some, length-take, length-drop,
  take-append-drop,
}
use mathlib.Core.Path.{subst}
use xv6_fork.Fs.{Fs}
use xv6_fork.Inode.{Inode, bmap, store_bytes, writei_from, max_size}
use xv6_fork.Inode.Slots.{IsInode, index}
use xv6_fork.Inode.Free.{free}
use xv6_fork.Inode.Map.{Given, bmap-Given}
use xv6_fork.Inode.Stored.{AllBytes}
use xv6_fork.Inode.Write.{Writes, piece-Writes, Writes-append}

-- The blocks that `n` bytes at `off` lie in.
abbrev pub rounds : ℕ → ℕ → ℕ
rounds off n = if n == 0 then 0 else (off % 512 + n + 511) / 512

pub empty-Writes :
    (n : ℕ) (ip : Inode) (fs : Fs) (off : ℕ) → IsInode ip fs → Writes n ip fs off [] ip fs
empty-Writes n ip fs off h = record {
  inode = h;
  kept = λ bn lt nz. nz;
  covered = λ bn some_bytes. absurd (omega arith);
  inside = λ o j lt. absurd (omega arith);
  outside = λ o lo out nz. refl;
  room = omega arith;
  size = refl;
  type = refl;
  inum = refl;
  inodestart = refl;
}

rounds_step :
    (off n m : ℕ)
    → m ≡ min (suc n) (512 - off % 512)
    → rounds (off + m) (suc n - m) + 1 ≤ rounds off (suc n)
rounds_step off n m e = ground arith

unfoldable pub Written : ℕ → List ℕ → Inode → Fs → Option (Inode × Fs) → Type 0
Written off bytes ip fs r =
    (ip' : Inode) × (fs' : Fs) × (r ≡ some (ip', fs'))
    × Writes (2 * rounds off (length bytes)) ip fs off bytes ip' fs'

AllBytes-take : (n : ℕ) (cs : List ℕ) → AllBytes cs → AllBytes (take n cs)
AllBytes-take zero cs h j = omega arith
AllBytes-take (suc n) [] h j = omega arith
AllBytes-take (suc n) (c ∷ cs) h zero = h 0
AllBytes-take (suc n) (c ∷ cs) h (suc j) = AllBytes-take n cs (λ i. h (suc i)) j

AllBytes-drop : (n : ℕ) (cs : List ℕ) → AllBytes cs → AllBytes (drop n cs)
AllBytes-drop zero cs h = h
AllBytes-drop (suc n) [] h = h
AllBytes-drop (suc n) (c ∷ cs) h = AllBytes-drop n cs (λ i. h (suc i))

widen-Writes :
    {n m : ℕ} {ip ip' : Inode} {fs fs' : Fs} (off : ℕ) (bytes : List ℕ)
    → n ≤ m
    → Writes n ip fs off bytes ip' fs'
    → Writes m ip fs off bytes ip' fs'
widen-Writes off bytes le w = record {
  inode = w.inode;
  kept = w.kept;
  covered = w.covered;
  inside = w.inside;
  outside = w.outside;
  room = omega (arith, w.room);
  size = w.size;
  type = w.type;
  inum = w.inum;
  inodestart = w.inodestart;
}

-- A piece and then the rest.
one_more :
    (off m : ℕ) (chunk rest bytes : List ℕ) (ip ip1 : Inode) (fs fs1 : Fs) (r : Option (Inode × Fs))
    → chunk ++ rest ≡ bytes
    → m ≡ length chunk
    → off + length bytes ≤ max_size
    → rounds (off + m) (length rest) + 1 ≤ rounds off (length bytes)
    → Writes 2 ip fs off chunk ip1 fs1
    → Written (off + m) rest ip1 fs1 r
    → Written off bytes ip fs r
unfolding Written
one_more off m chunk rest bytes ip ip1 fs fs1 r e lm fit fewer w (ip', fs', done, more) =
    let total : length (chunk ++ rest) ≡ length bytes = ap length e in
    let behind =
      subst (λ k. Writes (2 * rounds (off + m) (length rest)) ip1 fs1 (off + k) rest ip' fs') lm
        more in
    let all = Writes-append off chunk rest (omega (arith, total)) w behind in
    (
      ip',
      fs',
      done,
      widen-Writes off bytes (omega arith) (
          subst (λ bs. Writes (2 + 2 * rounds (off + m) (length rest)) ip fs off bs ip' fs') e all),
    )

-- The piece of the bytes that goes into one block.
abbrev piece : ℕ → List ℕ → ℕ
piece off bytes = min (length bytes) (512 - off % 512)

length-piece : (off : ℕ) (bytes : List ℕ) → length (take (piece off bytes) bytes) ≡ piece off bytes
length-piece off bytes = length-take (piece off bytes) bytes ∙ omega arith

-- What is left behind it needs fewer blocks.
fewer_left :
    (off c : ℕ) (cs : List ℕ)
    → rounds (off + piece off (c ∷ cs)) (length (drop (piece off (c ∷ cs)) (c ∷ cs))) + 1
      ≤ rounds off (length (c ∷ cs))
fewer_left off c cs =
    let left = length-drop (piece off (c ∷ cs)) (c ∷ cs) in
    rw left (rounds_step off (length cs) (piece off (c ∷ cs)) refl)

-- What the loop does with this fuel.
abbrev pub Loops : ℕ → Type 0
Loops fuel =
    (off : ℕ) (bytes : List ℕ) (ip : Inode) (fs : Fs)
    → length bytes ≤ fuel
    → off + length bytes ≤ max_size
    → AllBytes bytes
    → IsInode ip fs
    → 2 * rounds off (length bytes) ≤ free fs
    → Written off bytes ip fs (writei_from fuel off bytes ip fs)

-- A round with the block that bmap has given.
round-Written :
    (fuel off c : ℕ) (cs : List ℕ) (ip : Inode) (fs : Fs)
    → length (c ∷ cs) ≤ suc fuel
    → off + length (c ∷ cs) ≤ max_size
    → AllBytes (c ∷ cs)
    → 2 * rounds off (length (c ∷ cs)) ≤ free fs
    → Loops fuel
    → Given 2 ip fs (index (off / 512)) (bmap (off / 512) ip fs)
    → Written off (c ∷ cs) ip fs (writei_from (suc fuel) off (c ∷ cs) ip fs)
unfolding writei_from Given
round-Written fuel off c cs ip fs le fit small room again (a, ip1, fs1, e, g) =
    let m = piece off (c ∷ cs) in
    let chunk = take m (c ∷ cs) in
    let rest = drop m (c ∷ cs) in
    let taken : length chunk ≡ m = length-piece off (c ∷ cs) in
    let left : length rest ≡ length (c ∷ cs) - m = length-drop m (c ∷ cs) in
    let w =
      piece-Writes ip fs off a ip1 fs1 chunk (omega arith) (omega (arith, taken))
        (AllBytes-take m (c ∷ cs) small) g in
    let behind =
      again (off + m) rest ip1 (store_bytes a (off % 512) chunk fs1) (omega (arith, left))
        (omega (arith, left)) (AllBytes-drop m (c ∷ cs) small) w.inode
        (omega (arith, room, w.room, fewer_left off c cs)) in
    rw (writei_from, e)
      (one_more off m chunk rest (c ∷ cs) ip ip1 fs (store_bytes a (off % 512) chunk fs1) _
        (take-append-drop m (c ∷ cs)) (sym taken) fit (fewer_left off c cs) w behind)

-- The loop ends with all bytes written if there are two free blocks for each block that they lie in.
pub writei_from-Written : (fuel : ℕ) → Loops fuel
unfolding writei_from Written
writei_from-Written fuel off [] ip fs le fit small h room =
    (ip, fs, refl, empty-Writes (2 * rounds off 0) ip fs off h)
writei_from-Written zero off (c ∷ cs) ip fs le fit small h room = absurd (omega arith)
writei_from-Written (suc fuel) off (c ∷ cs) ip fs le fit small h room =
    round-Written fuel off c cs ip fs le fit small room (writei_from-Written fuel)
      (bmap-Given (off / 512) ip fs h (omega arith) (omega (arith, room, fewer_left off c cs)))
