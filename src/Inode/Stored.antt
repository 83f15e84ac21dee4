-- ===== src/Inode/Stored.antt =====
-- The copy of bytes into a block in writei of fs.c.
use xv6_fork.Prelude.{
  ℕ, zero, suc, ◌+◌, ◌<◌, ◌≤◌, ◌≡◌, ◌⊎◌, refl, ◌∙◌, arith, inl, inr, List, [], ◌∷◌, length, get_or,
}
use xv6_fork.Fs.{Fs, write_byte}
use xv6_fork.Fs.Bitmap.{IsBytes}
use xv6_fork.Inode.{store_bytes}
use xv6_fork.Inode.Bytes.{Edits}

abbrev pub AllBytes : List ℕ → Type 0
AllBytes cs = (j : ℕ) → get_or cs j 0 < 256

module _ (k : ℕ) where
  pub store_bytes-Edits :
      (o : ℕ) (cs : List ℕ) (fs : Fs)
      → AllBytes cs
      → IsBytes fs
      → Edits fs k (store_bytes k o cs fs)
  store_bytes-Edits o [] fs small h = record {
    size = refl;
    bmapstart = refl;
    inodestart = refl;
    bytes = h;
    far = λ k' i ne. refl;
  }
  store_bytes-Edits o (c ∷ cs) fs small h =
      let one : Fs = record fs { block = write_byte fs.block k o c } in
      let first : IsBytes one = λ k' i. ground (arith, small 0, h k' i) in
      let rest = store_bytes-Edits (o + 1) cs one (λ j. small (suc j)) first in
      record {
        size = rest.size;
        bmapstart = rest.bmapstart;
        inodestart = rest.inodestart;
        bytes = rest.bytes;
        far = λ k' i ne. rest.far k' i ne ∙ ground arith;
      }

  pub store_bytes-beside :
      (o : ℕ) (cs : List ℕ) (fs : Fs) (i : ℕ)
      → (i < o) ⊎ (o + length cs ≤ i)
      → (store_bytes k o cs fs).block k i ≡ fs.block k i
  store_bytes-beside o [] fs i out = refl
  store_bytes-beside o (c ∷ cs) fs i (inl lo) =
      store_bytes-beside (o + 1) cs _ i (inl (omega arith)) ∙ ground arith
  store_bytes-beside o (c ∷ cs) fs i (inr hi) =
      store_bytes-beside (o + 1) cs _ i (inr (omega arith)) ∙ ground arith

  pub store_bytes-inside :
      (o : ℕ) (cs : List ℕ) (fs : Fs) (i j : ℕ)
      → j < length cs
      → i ≡ o + j
      → (store_bytes k o cs fs).block k i ≡ get_or cs j 0
  store_bytes-inside o [] fs i j lt e = absurd (omega arith)
  store_bytes-inside o (c ∷ cs) fs i zero lt e =
      store_bytes-beside (o + 1) cs _ i (inl (omega arith)) ∙ ground arith
  store_bytes-inside o (c ∷ cs) fs i (suc j) lt e =
      store_bytes-inside (o + 1) cs _ i j (omega arith) (omega arith)
