-- ===== src/Log/Record.antt =====
-- log_write of log.c: what is recorded, and what the cache shows after it.
use xv6_fork.Prelude.{
  ℕ, zero, suc, ◌+◌, ◌≤◌, ◌<◌, ◌≡◌, refl, sym, ◌∙◌, ◌≢◌, ◌⊎◌, inl, inr, arith, some, List, get_or,
  set, length-set, get_or-set_self, get_or-set_ne, ◌==◌, if◌then◌else◌,
}
use native.Mathlib.Decide.{ℕ_discrete}
use xv6_fork.Log.{LogHeader, State, log_size, slot_of, log_write}
use xv6_fork.Log.Disk.{Block, contents, contents-of_eq, update, update_ne}
use xv6_fork.Log.Layout.{IsHome, target}
use xv6_fork.Log.Commit.{IsReady}

-- The search ends at the first entry that is `b`, or at the end.
pub slot_of-bounds :
    (k i b : ℕ) (block : List ℕ) → (i ≤ slot_of k i block b) × (slot_of k i block b ≤ i + k)
unfolding slot_of
slot_of-bounds zero i b block = omega arith
slot_of-bounds (suc k) i b block = ground (arith, slot_of-bounds k (suc i) b block)

pub slot_of-hit :
    (k i b : ℕ) (block : List ℕ)
    → slot_of k i block b < i + k
    → get_or block (slot_of k i block b) 0 ≡ b
unfolding slot_of
slot_of-hit zero i b block h = absurd (omega arith)
slot_of-hit (suc k) i b block h = ground (arith, slot_of-hit k (suc i) b block)

pub slot_of-found :
    (k i j b : ℕ) (block : List ℕ)
    → i ≤ j
    → j < i + k
    → get_or block j 0 ≡ b
    → slot_of k i block b < i + k
unfolding slot_of
slot_of-found zero i j b block lo hi e = absurd (omega arith)
slot_of-found (suc k) i j b block lo hi e = elim (ℕ_discrete i j) [
  | yes here ↦ ground arith
  | no later ↦ ground (arith, slot_of-found k (suc i) j b block)
]

-- The header after recording block b.
abbrev pub recorded_header : LogHeader → ℕ → LogHeader
recorded_header h b =
    let i = slot_of h.n 0 h.block b in
    record { n = if i == h.n then h.n + 1 else h.n; block = set h.block i b }

-- What log_write must do.
pub record Records (s : State) (b : ℕ) (v : Block) (t : State) : Type 0 where
  pub ready : IsReady t.log t.dev
  pub shown : contents t.dev b ≡ v
  pub others : (c : ℕ) → b ≢ c → contents t.dev c ≡ contents s.dev c
  pub disk : t.dev.disk ≡ s.dev.disk
  pub count : t.log.lh.n ≤ s.log.lh.n + 1
  pub absorbed : (j : ℕ) → j < s.log.lh.n → target s.log j ≡ b → t.log.lh.n ≡ s.log.lh.n

module _ (s : State) (b : ℕ) (v : Block) where
  written : State
  written = record {
    log = record s.log { lh = recorded_header s.log.lh b };
    dev = record s.dev { dirty = update s.dev.dirty b (some v) };
  }

  log_write-written :
      s.log.lh.n < log_size
      → s.log.lh.n + 1 < s.log.size
      → 0 < s.log.outstanding
      → log_write s b v ≡ some written
  unfolding log_write written
  log_write-written space fits inside = ground arith

  module _ (r : IsReady s.log s.dev) (home : IsHome s.log b) where
    index : ℕ
    index = slot_of s.log.lh.n 0 s.log.lh.block b

    index_le : index ≤ s.log.lh.n
    unfolding index
    index_le = omega (arith, slot_of-bounds s.log.lh.n 0 b s.log.lh.block)

    -- Every entry of the new header is `b` or an old entry.
    written-targets :
        s.log.lh.n < log_size
        → (j : ℕ) → j < written.log.lh.n
        → (target written.log j ≡ b) ⊎ ((j < s.log.lh.n) × (target written.log j ≡ target s.log j))
    unfolding written index
    written-targets space j p = elim (ℕ_discrete index j) [
      | yes e ↦ inl (
          rw (← e)
            (get_or-set_self s.log.lh.block index b 0 (omega (arith, index_le, r.layout.array))))
      | no ne ↦ inr (ground (arith, index_le), get_or-set_ne s.log.lh.block index j b 0 ne)
    ]

    -- Every block recorded before is still recorded in its place.
    written-keeps :
        s.log.lh.n < log_size
        → (j : ℕ) → j < s.log.lh.n
        → (j < written.log.lh.n) × (target written.log j ≡ target s.log j)
    unfolding written index
    written-keeps space j p = (
      ground arith,
      elim (ℕ_discrete index j) [
        | yes e ↦ rw (← e) (
            get_or-set_self s.log.lh.block index b 0 (omega (arith, index_le, r.layout.array))
            ∙ sym (slot_of-hit s.log.lh.n 0 b s.log.lh.block (omega arith)))
        | no ne ↦ get_or-set_ne s.log.lh.block index j b 0 ne
      ],
    )

    written-has :
        s.log.lh.n < log_size → (index < written.log.lh.n) × (target written.log index ≡ b)
    unfolding written index
    written-has space = (
      ground (arith, index_le),
      get_or-set_self s.log.lh.block index b 0 (omega (arith, index_le, r.layout.array)),
    )

    written-IsReady :
        s.log.lh.n < log_size → s.log.lh.n + 1 < s.log.size → IsReady written.log written.dev
    unfolding written index
    written-IsReady space fits = record {
      layout = record {
        count = ground (arith, index_le);
        fits = ground (arith, index_le);
        array = length-set s.log.lh.block index b ∙ r.layout.array;
        homes = λ j p. elim (written-targets space j p) [
          | inl e ↦ rw e home
          | inr (q, e) ↦ rw e (r.layout.homes j q)
        ];
      };
      head_size = r.head_size;
      head = r.head;
      tidy = λ c p q. elim (ℕ_discrete b c) [
        | yes e ↦ absurd (ground arith)
        | no ne ↦ update_ne s.dev.dirty b c (some v) ne ∙ r.tidy c p q
      ];
      recorded = λ c p. elim (ℕ_discrete b c) [
        | yes e ↦ inr (index, (written-has space).0, (written-has space).1 ∙ e)
        | no ne ↦ elim (r.recorded c p) [
          | inl clean ↦ inl (update_ne s.dev.dirty b c (some v) ne ∙ clean)
          | inr (j, lt, e) ↦ inr (j, (written-keeps space j lt).0, (written-keeps space j lt).1 ∙ e)
        ]
      ];
    }

    written-Records : s.log.lh.n < log_size → s.log.lh.n + 1 < s.log.size → Records s b v written
    unfolding written index
    written-Records space fits = record {
      ready = written-IsReady space fits;
      shown = ground arith;
      others =
          λ c ne. contents-of_eq written.dev s.dev c refl (update_ne s.dev.dirty b c (some v) ne);
      disk = refl;
      count = ground arith;
      absorbed = λ j p e.
          ground
            (arith, slot_of-found s.log.lh.n 0 j b s.log.lh.block (omega arith) (omega arith) e);
    }

-- Inside a transaction with room in the header and in the log area, log_write of a home block
-- succeeds: the cache then shows the new data for that block and nothing else changes there or on
-- the disk, the header grows by one entry at most and not at all for a block that it already has,
-- and the state is again one that commit can be called in.
pub log_write-Records :
    (s : State) (b : ℕ) (v : Block)
    → IsReady s.log s.dev
    → IsHome s.log b
    → s.log.lh.n < log_size
    → s.log.lh.n + 1 < s.log.size
    → 0 < s.log.outstanding
    → (t : State) × (log_write s b v ≡ some t) × Records s b v t
log_write-Records s b v r home space fits inside = (
  written s b v,
  log_write-written s b v space fits inside,
  written-Records s b v r home space fits,
)
