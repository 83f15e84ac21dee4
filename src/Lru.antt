-- ===== src/Lru.antt =====
-- The list of user pages in kalloc.c: lru_insert and lru_delete over the array `pages`.
pub mod Single
mod Tests
use xv6_fork.Prelude.{
  ℕ, zero, suc, ◌+◌, ◌-◌, ◌/◌, ◌≡◌, Bool, true, false, ◌&&◌, Option, none, some, if◌then◌else◌,
  ◌==◌, ltb, leb,
}

-- PHYSTOP / PGSIZE
abbrev pub page_count : ℕ
page_count = 0xE000000 / 4096

-- `struct page`; a pointer to pages[i] is `some i`, and 0 is `none`.
pub record Page : Type 0 where
  pub next : Option ℕ
  pub prev : Option ℕ
  pub pgdir : ℕ
  pub vaddr : ℕ

-- `pages`, `page_lru_head` and `num_lru_pages`.
pub record Lru : Type 0 where
  pub pages : ℕ → Page
  pub head : Option ℕ
  pub num : ℕ

abbrev pub put : (ℕ → Page) → ℕ → Page → ℕ → Page
put pages i v j = if i == j then v else pages j

abbrev pub set_next : (ℕ → Page) → ℕ → Option ℕ → ℕ → Page
set_next pages i n = put pages i (record (pages i) { next = n })

abbrev pub set_prev : (ℕ → Page) → ℕ → Option ℕ → ℕ → Page
set_prev pages i n = put pages i (record (pages i) { prev = n })

abbrev pub is_some {ℓ} : {A : Type ℓ} → Option A → Bool
is_some none = false
is_some (some a) = true

-- The search of lru_insert, `k` rounds from `i` on: the first index whose `next` is not 0.
pub first_linked : ℕ → ℕ → (ℕ → Page) → ℕ
first_linked zero i pages = i
first_linked (suc k) i pages =
    let rest = first_linked k (suc i) pages in if is_some (pages i).next then i else rest

-- The four writes of lru_insert to a list that is not empty, at index `i` with `p` the head's `prev`.
-- A write through a null pointer is a fault, `none`.
abbrev pub link_in : (ℕ → Page) → ℕ → ℕ → Option ℕ → Option (ℕ → Page)
link_in pages head i none = none
link_in pages head i (some p) =
    let at_next = set_next pages i (some head) in
    let at_prev = set_prev at_next i (some p) in
    let before = set_next at_prev p (some i) in some (set_prev before head (some i))

-- The else branch of lru_insert once the search has ended at `i`, with the panic for a full array.
pub insert_at : Lru → ℕ → ℕ → Option ℕ → Option Lru
insert_at l h i p = if leb page_count i then none else (elim (link_in l.pages h i p) [
  | none ↦ none
  | some pages ↦ some (record l { pages = pages; num = l.num + 1 })
])

-- lru_insert; `none` is its panic, or a write through a null pointer.
pub lru_insert : ℕ → ℕ → ℕ → Lru → Option Lru
lru_insert pgdir va pte_u_mask l = if pte_u_mask == 0 then some l else (elim l.head [
  | none ↦ some (record {
    pages = put l.pages 0 (record { next = some 0; prev = some 0; pgdir = pgdir; vaddr = va });
    head = some 0;
    num = l.num + 1;
  })
  | some h ↦ insert_at l h (first_linked page_count 0 l.pages) (l.pages h).prev
])

-- `next->prev = prev; prev->next = next; p->next = 0; p->prev = 0`
abbrev pub unlink : (ℕ → Page) → ℕ → Option ℕ → Option ℕ → Option (ℕ → Page)
unlink pages p none prev = none
unlink pages p (some n) none = none
unlink pages p (some n) (some q) =
    let after = set_prev pages n (some q) in
    let before = set_next after q (some n) in
    let no_next = set_next before p none in some (set_prev no_next p none)

-- How a run over the list ends: it returns, meets a null pointer, or has used its fuel.
pub data Run {ℓ} (A : Type ℓ) : Type ℓ where
  returns : A → Run A
  faults : Run A
  runs_on : Run A

-- The loop of lru_delete from pages[p] on.
pub delete_from : ℕ → ℕ → ℕ → Lru → Run Lru
delete_from zero p va l = runs_on
delete_from (suc f) p va l =
    if (l.pages p).vaddr == va && is_some (l.pages p).next
    then (elim (unlink l.pages p (l.pages p).next (l.pages p).prev) [
      | none ↦ faults
      | some pages ↦ returns (record l { pages = pages; num = l.num - 1 })
    ])
    else (elim (l.pages p).next [ none ↦ faults | some q ↦ delete_from f q va l ])

-- lru_delete as far as the list goes.
pub lru_delete : ℕ → ℕ → Lru → Run Lru
lru_delete fuel va l = elim l.head [ none ↦ returns l | some h ↦ delete_from fuel h va l ]
