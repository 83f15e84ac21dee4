-- ===== src/Text.antt =====
-- string.c: byte and string operations of the kernel over a memory of bytes. Pointers do not wrap, as
-- C requires of the arrays they walk.
pub mod Move
pub mod Fill
pub mod Compare
pub mod Copy
pub mod Pad
pub mod Lengths
mod Tests
use xv6_fork.Prelude.{
  ℕ, zero, suc, ◌+◌, ◌-◌, ◌*◌, ◌/◌, ◌%◌, Bool, true, false, not, ◌&&◌, Option, none, some,
  if◌then◌else◌, ◌==◌, ltb,
}

abbrev pub write : (ℕ → ℕ) → ℕ → ℕ → ℕ → ℕ
write m a v b = if a == b then v else m b

-- `while(n-- > 0) *--d = *--s;`
pub copy_down : ℕ → ℕ → ℕ → (ℕ → ℕ) → ℕ → ℕ
copy_down zero d s m = m
copy_down (suc n) d s m = copy_down n (d - 1) (s - 1) (write m (d - 1) (m (s - 1)))

-- `while(n-- > 0) *d++ = *s++;`
pub copy_up : ℕ → ℕ → ℕ → (ℕ → ℕ) → ℕ → ℕ
copy_up zero d s m = m
copy_up (suc n) d s m = copy_up n (d + 1) (s + 1) (write m d (m s))

pub memmove : ℕ → ℕ → ℕ → (ℕ → ℕ) → ℕ → ℕ
memmove dst src n m =
    if ltb src dst && ltb dst (src + n)
    then copy_down n (dst + n) (src + n) m
    else copy_up n dst src m

-- `stosb`: the low byte of `c`, `n` times.
pub stosb : ℕ → ℕ → ℕ → (ℕ → ℕ) → ℕ → ℕ
stosb zero a c m = m
stosb (suc n) a c m = stosb n (a + 1) c (write m a (c % 256))

-- `stosl`: the four bytes of `c`, the lowest first, `n` times.
pub stosl : ℕ → ℕ → ℕ → (ℕ → ℕ) → ℕ → ℕ
stosl zero a c m = m
stosl (suc n) a c m = stosl n (a + 4) c (
    write (write (write (write m a (c % 256)) (a + 1) (c / 256 % 256)) (a + 2) (c / 65536 % 256))
      (a + 3) (c / 16777216 % 256))

-- `(c<<24)|(c<<16)|(c<<8)|c` of a byte.
abbrev pub spread : ℕ → ℕ
spread c = c * 16777216 + c * 65536 + c * 256 + c

pub memset : ℕ → ℕ → ℕ → (ℕ → ℕ) → ℕ → ℕ
memset dst c n m =
    if (dst % 4 == 0) && (n % 4 == 0)
    then stosl (n / 4) dst (spread (c % 256)) m
    else stosb n dst c m

-- The difference of two bytes.
pub data ℤ : Type 0 where
  pos : ℕ → ℤ
  negsuc : ℕ → ℤ

abbrev pub byte_sub : ℕ → ℕ → ℤ
byte_sub a b = if ltb a b then negsuc (b - a - 1) else pos (a - b)

pub strncmp : ℕ → ℕ → ℕ → (ℕ → ℕ) → ℤ
strncmp p q zero m = pos 0
strncmp p q (suc n) m =
    let rest = strncmp (p + 1) (q + 1) n m in
    if not (m p == 0) && (m p == m q) then rest else byte_sub (m p) (m q)

-- The loop of safestrcpy, with `n` characters left to copy, and the last `*s = 0`.
pub copy_text : ℕ → ℕ → ℕ → (ℕ → ℕ) → ℕ → ℕ
copy_text zero s t m = write m s 0
copy_text (suc n) s t m =
    let copied = write m s (m t) in
    let rest = copy_text n (s + 1) (t + 1) copied in
    if m t == 0 then write copied (s + 1) 0 else rest

-- A size of 0 stands for any that is not positive.
pub safestrcpy : ℕ → ℕ → ℕ → (ℕ → ℕ) → ℕ → ℕ
safestrcpy s t zero m = m
safestrcpy s t (suc n) m = copy_text n s t m

pub memcmp : ℕ → ℕ → ℕ → (ℕ → ℕ) → ℤ
memcmp s1 s2 zero m = pos 0
memcmp s1 s2 (suc n) m =
    let rest = memcmp (s1 + 1) (s2 + 1) n m in
    if not (m s1 == m s2) then byte_sub (m s1) (m s2) else rest

pub memcpy : ℕ → ℕ → ℕ → (ℕ → ℕ) → ℕ → ℕ
memcpy dst src n m = memmove dst src n m

-- `while(n-- > 0) *s++ = 0;`
pub pad : ℕ → ℕ → (ℕ → ℕ) → ℕ → ℕ
pad zero s m = m
pad (suc n) s m = pad n (s + 1) (write m s 0)

-- A size of 0 stands for any that is not positive.
pub strncpy : ℕ → ℕ → ℕ → (ℕ → ℕ) → ℕ → ℕ
strncpy s t zero m = m
strncpy s t (suc n) m =
    let copied = write m s (m t) in
    let rest = strncpy (s + 1) (t + 1) n copied in if m t == 0 then pad n (s + 1) copied else rest

-- The loop of strlen, at most `k` rounds from `n` on; `none` where it has not met a 0.
pub strlen : ℕ → ℕ → ℕ → (ℕ → ℕ) → Option ℕ
strlen zero n s m = none
strlen (suc k) n s m = let rest = strlen k (n + 1) s m in if m (s + n) == 0 then some n else rest
