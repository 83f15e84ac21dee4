-- ===== src/Text/Tests.antt =====
-- string.c on a memory in which each byte is its address.
use xv6_fork.Prelude.{ℕ, some, ◌%◌, ◌≡◌, inl, refl, arith}
use xv6_fork.Text.{
  negsuc, copy_down, memmove, stosl, memset, strncmp, copy_text, safestrcpy, pad, strncpy, memcmp,
  strlen,
}
use xv6_fork.Text.Move.{Copies, memmove-Copies}
use xv6_fork.Text.Copy.{Copied, safestrcpy-Copied}

abbrev memory : ℕ → ℕ
memory a = a % 256

memmove-Copies_example : Copies memory 12 10 5 (memmove 12 10 5 memory)
memmove-Copies_example = memmove-Copies 12 10 5 memory

memmove_end : memmove 12 10 5 memory 16 ≡ 14
unfolding memmove copy_down
memmove_end = refl

memset_byte : memset 8 300 8 memory 13 ≡ 44
unfolding memset stosl
memset_byte = refl

strncmp_less : strncmp 10 20 3 memory ≡ negsuc 9
unfolding strncmp
strncmp_less = refl

safestrcpy-Copied_example : (k : ℕ) × Copied memory 400 254 16 (safestrcpy 400 254 16 memory) k
safestrcpy-Copied_example = safestrcpy-Copied 15 400 254 memory (inl (omega arith))

safestrcpy_cut : safestrcpy 400 254 16 memory 401 ≡ 255
unfolding safestrcpy copy_text
safestrcpy_cut = refl

strncpy_kept : strncpy 400 254 6 memory 401 ≡ 255
unfolding strncpy pad
strncpy_kept = refl

strncpy_padded : strncpy 400 254 6 memory 405 ≡ 0
unfolding strncpy pad
strncpy_padded = refl

memcmp_less : memcmp 10 20 3 memory ≡ negsuc 9
unfolding memcmp
memcmp_less = refl

strlen_wrap : strlen 10 0 250 memory ≡ some 6
unfolding strlen
strlen_wrap = refl
