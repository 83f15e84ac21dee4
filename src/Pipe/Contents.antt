-- ===== src/Pipe/Contents.antt =====
-- The bytes that a pipe of pipe.c holds, and when its counters make sense.
use xv6_fork.Prelude.{
  ℕ, zero, suc, ◌+◌, ◌%◌, ◌≤◌, ◌<◌, ◌≡◌, refl, ap, ◌∙◌, arith, List, [], ◌∷◌, ◌++◌, u32_mod, add32,
  sub32, get_or, set, length, length-set, get_or-set_self, get_or-set_ne,
}
use mathlib.Core.Path.{ap₂}
use xv6_fork.Pipe.{Pipe, pipe_size, store}

-- The number of bytes in the pipe: the counters' distance, modulo 2 ^ 32.
abbrev pub count : Pipe → ℕ
count p = sub32 p.nwrite p.nread

-- `n` bytes from counter value `h` on.
abbrev pub window : List ℕ → ℕ → ℕ → List ℕ
window buf h zero = []
window buf h (suc n) = get_or buf (h % pipe_size) 0 ∷ window buf (add32 h 1) n

-- Oldest byte first.
abbrev pub contents : Pipe → List ℕ
contents p = window p.buf p.nread (count p)

pub record IsValid (p : Pipe) : Type 0 where
  pub storage : length p.buf ≡ pipe_size
  pub nread_word : p.nread < u32_mod
  pub nwrite_word : p.nwrite < u32_mod
  pub fits : count p ≤ pipe_size

pub length-window : (buf : List ℕ) (h n : ℕ) → length (window buf h n) ≡ n
length-window buf h zero = refl
length-window buf h (suc n) = ap suc (length-window buf (add32 h 1) n)

-- Writing just past a window of fewer than 512 bytes extends it by that byte.
pub window-set :
    (buf : List ℕ) (x n h i : ℕ)
    → length buf ≡ pipe_size
    → h < u32_mod
    → n < pipe_size
    → i ≡ (h + n) % pipe_size
    → window (set buf i x) h (suc n) ≡ window buf h n ++ (x ∷ [])
window-set buf x zero h i hs hh hn e = ap (λ t. t ∷ []) (ground (arith, get_or-set_self buf i x 0))
window-set buf x (suc n) h i hs hh hn e =
    ap₂ ◌∷◌ (get_or-set_ne buf i (h % pipe_size) x 0 (λ q. omega arith))
      (window-set buf x n (add32 h 1) i hs (omega arith) (omega arith) (omega arith))

module _ {p : Pipe} (v : IsValid p) where
  pub count-store : count p < pipe_size → (c : ℕ) → count (store p c) ≡ suc (count p)
  count-store room c = omega (arith, v.nread_word, v.nwrite_word)

  pub store-IsValid : count p < pipe_size → (c : ℕ) → IsValid (store p c)
  store-IsValid room c = record {
    storage = omega (arith, v.storage, length-set p.buf (p.nwrite % pipe_size) c);
    nread_word = v.nread_word;
    nwrite_word = omega arith;
    fits = omega (arith, count-store room c);
  }

  pub contents-store : count p < pipe_size → (c : ℕ) → contents (store p c) ≡ contents p ++ (c ∷ [])
  contents-store room c =
      let e = count-store room c in
      let w =
        window-set p.buf c (count p) p.nread (p.nwrite % pipe_size) v.storage v.nread_word room
          (omega (arith, v.nread_word, v.nwrite_word)) in
      ap (window (set p.buf (p.nwrite % pipe_size) c) p.nread) e ∙ w
