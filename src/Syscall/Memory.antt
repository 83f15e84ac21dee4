-- ===== src/Syscall/Memory.antt =====
-- Arguments that syscall.c hands on lie within the memory of the process.
use xv6_fork.Prelude.{
  ℕ, zero, suc, ◌+◌, ◌-◌, ◌≤◌, ◌<◌, ◌≡◌, ◌≢◌, ap, ◌∙◌, inl, inr, Bool-cases, Option-cases, arith,
  Option, none, some, ◌==◌, leb,
}
use native.Mathlib.Decide.{ℕ_discrete}
use xv6_fork.Syscall.{User, word_at, fetchint, scan_text, fetchstr, argint, argptr, argstr}

-- A string of `len` characters, none of them NUL, and its NUL lie in the memory of the process.
pub record IsText (u : User) (addr len : ℕ) : Type 0 where
  pub room : addr + len < u.sz
  pub ended : u.memory (addr + len) ≡ 0
  pub full : (i : ℕ) → i < len → u.memory (addr + i) ≢ 0

-- What the scan of fetchstr comes to, `k` characters from `s` on.
abbrev Scans : (ℕ → ℕ) → ℕ → ℕ → ℕ → Option ℕ → Type 0
Scans m k s n none = (i : ℕ) → i < k → m (s + i) ≢ 0
Scans m k s n (some r) =
    (n ≤ r) × (r - n < k) × (m (s + (r - n)) ≡ 0) × ((i : ℕ) → i < r - n → m (s + i) ≢ 0)

later-Scans :
    (m : ℕ → ℕ) (k s n : ℕ) (r : Option ℕ)
    → m s ≢ 0
    → Scans m k (s + 1) (n + 1) r
    → Scans m (suc k) s n r
later-Scans m k s n none ne h = λ i lt. elim (ℕ_discrete i 0) [
  | yes z ↦ λ e. ne (ap m (omega arith) ∙ e)
  | no nz ↦ λ e. h (i - 1) (omega arith) (ap m (omega arith) ∙ e)
]
later-Scans m k s n (some r) ne h = (
  omega (arith, h.0),
  omega (arith, h.0, h.1),
  ap m (omega (arith, h.0)) ∙ h.2,
  λ i lt. elim (ℕ_discrete i 0) [
    | yes z ↦ λ e. ne (ap m (omega arith) ∙ e)
    | no nz ↦ λ e. h.3 (i - 1) (omega arith) (ap m (omega arith) ∙ e)
  ],
)

scan_text-Scans : (m : ℕ → ℕ) (k s n : ℕ) → Scans m k s n (scan_text m k s n)
unfolding scan_text
scan_text-Scans m zero s n = λ i lt. absurd (omega arith)
scan_text-Scans m (suc k) s n = elim (Bool-cases (m s == 0)) [
  | inl ends ↦
      let there : s + (n - n) ≡ s = omega arith in
      rw ends (omega arith, omega arith, ap m there ∙ ground arith, λ i lt. absurd (omega arith))
  | inr goes_on ↦ rw goes_on (
      later-Scans m k s n (scan_text m k (s + 1) (n + 1)) (ground arith)
        (scan_text-Scans m k (s + 1) (n + 1)))
]

Scans-IsText :
    (u : User) (addr : ℕ) (r : Option ℕ) (len : ℕ)
    → addr < u.sz
    → r ≡ some len
    → Scans u.memory (u.sz - addr) addr 0 r
    → IsText u addr len
Scans-IsText u addr none len lt e h = absurd (cc)
Scans-IsText u addr (some r) len lt e h =
    let q : r ≡ len = cc in
    record {
      room = omega (arith, h.1);
      ended = ap u.memory (omega arith) ∙ h.2;
      full = λ i li. h.3 i (omega arith);
    }

fetchstr-IsText : (u : User) (addr len : ℕ) → fetchstr u addr ≡ some len → IsText u addr len
unfolding fetchstr
fetchstr-IsText u addr len e = elim (Bool-cases (leb u.sz addr)) [
  | inl out ↦ absurd (ground arith)
  | inr within ↦
      Scans-IsText u addr (scan_text u.memory (u.sz - addr) addr 0) len (ground arith)
        (rw within at e) (scan_text-Scans u.memory (u.sz - addr) addr 0)
]

-- In a process that ends below the kernel, an address that argptr returns starts a block of `size`
-- bytes of the process, without wrapping; an integer is read from four bytes of the process; and what
-- argstr returns is a string of the process with its length.
pub args-inside :
    (n size : ℕ) (u : User)
    → u.sz ≤ 0x80000000
    → size < 0x100000000
    → ((p : ℕ) → argptr n size u ≡ some p → (p < u.sz) × (p + size ≤ u.sz))
      × ((addr v : ℕ) → fetchint u addr ≡ some v → (addr + 4 ≤ u.sz) × (v ≡ word_at u.memory addr))
      × ((addr len : ℕ) → argstr n u ≡ some (addr, len) → IsText u addr len)
unfolding argptr fetchint argstr
args-inside n size u top word = (
  (λ p e. elim (Option-cases (argint n u)) [
    | inl none_there ↦ absurd (ground arith)
    | inr (i, read) ↦ ground arith
  ]),
  (λ addr v e. (ground arith, ground arith)),
  (λ addr len e. elim (Option-cases (argint n u)) [
    | inl none_there ↦ absurd (ground arith)
    | inr (a, read) ↦ elim (Option-cases (fetchstr u a)) [
      | inl stops ↦ absurd (ground arith)
      | inr (l, found) ↦ fetchstr-IsText u addr len (ground arith)
    ]
  ]),
)
