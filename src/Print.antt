-- ===== src/Print.antt =====
-- Printing and reading of numbers: printint, printf and putc of printf.c, printint and cprintf of
-- console.c, and atoi of ulib.c. What is printed is the list of bytes handed to putc or consputc. The
-- arguments of a call are the words `ap` runs over; `text_at` is the C string at an address.
pub mod Digits
pub mod RoundTrip
pub mod Format
mod Tests
use xv6_fork.Prelude.{
  ℕ, zero, suc, ◌+◌, ◌-◌, ◌*◌, ◌/◌, ◌%◌, Bool, true, false, ◌&&◌, ◌||◌, List, [], ◌∷◌, ◌++◌,
  if◌then◌else◌, ◌==◌, ltb, leb, get_or,
}
use mathlib.Core.List.{reverse}

-- The `digits` of printf.c.
abbrev pub upper_digits : List ℕ
upper_digits =
    b'0' ∷ b'1' ∷ b'2' ∷ b'3' ∷ b'4' ∷ b'5' ∷ b'6' ∷ b'7' ∷ b'8' ∷ b'9' ∷ b'A' ∷ b'B' ∷ b'C' ∷ b'D'
    ∷ b'E' ∷ b'F' ∷ []

-- The `digits` of console.c.
abbrev pub lower_digits : List ℕ
lower_digits =
    b'0' ∷ b'1' ∷ b'2' ∷ b'3' ∷ b'4' ∷ b'5' ∷ b'6' ∷ b'7' ∷ b'8' ∷ b'9' ∷ b'a' ∷ b'b' ∷ b'c' ∷ b'd'
    ∷ b'e' ∷ b'f' ∷ []

-- The do-while loop of printint, at most `f` rounds: what it stores in `buf`.
pub store_digits : ℕ → List ℕ → ℕ → ℕ → List ℕ
store_digits zero digits x base = []
store_digits (suc f) digits x base =
    let rest = store_digits f digits (x / base) base in
    get_or digits (x % base) 0 ∷ (if x / base == 0 then [] else rest)

-- `xx` is the word of an int; its sign bit makes it negative.
abbrev pub is_negative : ℕ → Bool
is_negative xx = leb 0x80000000 xx

-- The first `i` bytes of `buf` when printint starts to print.
pub fill_buf : List ℕ → ℕ → ℕ → Bool → List ℕ
fill_buf digits xx base sgn =
    if sgn && is_negative xx
    then store_digits 32 digits ((0x100000000 - xx) % 0x100000000) base ++ (b'-' ∷ [])
    else store_digits 32 digits xx base

pub printint : List ℕ → ℕ → ℕ → Bool → List ℕ
printint digits xx base sgn = reverse (fill_buf digits xx base sgn)

-- The loop of atoi.
pub atoi_from : ℕ → List ℕ → ℕ
atoi_from n [] = n
atoi_from n (c ∷ s) = if leb b'0' c && leb c b'9' then atoi_from (n * 10 + c - b'0') s else n

pub atoi : List ℕ → ℕ
atoi s = atoi_from 0 s

abbrev pub null_text : List ℕ
null_text = b'(' ∷ b'n' ∷ b'u' ∷ b'l' ∷ b'l' ∷ b')' ∷ []

-- `%s` with the pointer `p`.
abbrev pub text_of : (ℕ → List ℕ) → ℕ → List ℕ
text_of text_at p = if p == 0 then null_text else text_at p

-- The character behind a `%` in printf: what it prints, and how many arguments it takes.
pub directive : (ℕ → List ℕ) → ℕ → ℕ → List ℕ × ℕ
directive text_at c arg =
    if c == b'd'
    then (printint upper_digits arg 10 true, 1)
    else (if (c == b'x') || (c == b'p')
        then (printint upper_digits arg 16 false, 1)
        else (if c == b's'
            then (text_of text_at arg, 1)
            else (if c == b'c'
                then ((arg % 256) ∷ [], 1)
                else (if c == b'%' then (c ∷ [], 0) else (b'%' ∷ c ∷ [], 0)))))

-- The loop of printf with `state` '%' or not, and the arguments from `ap` on.
pub printf_from : (ℕ → List ℕ) → (ℕ → ℕ) → Bool → ℕ → List ℕ → List ℕ
printf_from text_at args after_percent ap [] = []
printf_from text_at args false ap (c ∷ fmt) =
    if c == b'%'
    then printf_from text_at args true ap fmt
    else c ∷ printf_from text_at args false ap fmt
printf_from text_at args true ap (c ∷ fmt) =
    let (out, taken) = directive text_at c (args ap) in
    out ++ printf_from text_at args false (ap + taken) fmt

pub printf : (ℕ → List ℕ) → (ℕ → ℕ) → List ℕ → List ℕ
printf text_at args fmt = printf_from text_at args false 0 fmt

-- The same of cprintf, which has no `%c`.
pub console_directive : (ℕ → List ℕ) → ℕ → ℕ → List ℕ × ℕ
console_directive text_at c arg =
    if c == b'd'
    then (printint lower_digits arg 10 true, 1)
    else (if (c == b'x') || (c == b'p')
        then (printint lower_digits arg 16 false, 1)
        else (if c == b's'
            then (text_of text_at arg, 1)
            else (if c == b'%' then (b'%' ∷ [], 0) else (b'%' ∷ c ∷ [], 0))))

-- The loop of cprintf: a `%` reads the character behind it in the same round.
pub cprintf_from : (ℕ → List ℕ) → (ℕ → ℕ) → ℕ → List ℕ → List ℕ
cprintf_from text_at args ap [] = []
cprintf_from text_at args ap (c ∷ []) = if c == b'%' then [] else c ∷ []
cprintf_from text_at args ap (c ∷ d ∷ fmt) =
    let (out, taken) = console_directive text_at d (args ap) in
    let special = out ++ cprintf_from text_at args (ap + taken) fmt in
    let plain = c ∷ cprintf_from text_at args ap (d ∷ fmt) in if c == b'%' then special else plain

pub cprintf : (ℕ → List ℕ) → (ℕ → ℕ) → List ℕ → List ℕ
cprintf text_at args fmt = cprintf_from text_at args 0 fmt
