-- ===== src/Lru/Single.antt =====
-- What lru_insert and lru_delete of kalloc.c make of the list: it never has a second page.
use xv6_fork.Prelude.{
  ℕ, zero, suc, ◌+◌, ◌-◌, ◌<◌, ◌≡◌, refl, ap, ◌∙◌, ◌≢◌, arith, Option, none, some, false, List, [],
  ◌∷◌, length, ◌==◌,
}
use mathlib.Core.Path.{ap₂, subst}
use xv6_fork.Lru.{
  Page, Lru, page_count, put, first_linked, insert_at, lru_insert, set_next, set_prev, returns,
  faults, runs_on, delete_from, lru_delete,
}

-- The list is pages[0] alone, linked to itself, with these contents.
pub record IsSingle (pgdir va n : ℕ) (l : Lru) : Type 0 where
  pub head : l.head ≡ some 0
  pub page : l.pages 0 ≡ record { next = some 0; prev = some 0; pgdir = pgdir; vaddr = va }
  pub count : l.num ≡ n

-- Inserting user pages one after another; `none` as soon as one insertion fails.
pub insert_all : List (ℕ × ℕ) → Lru → Option Lru
insert_all [] l = some l
insert_all ((pgdir, va) ∷ xs) l = elim (lru_insert pgdir va 4 l) [
  | none ↦ none
  | some l' ↦ insert_all xs l'
]

-- The first page goes into an empty list.
insert_empty :
    (pgdir va : ℕ) (l : Lru)
    → l.head ≡ none
    → (l' : Lru) × (lru_insert pgdir va 4 l ≡ some l') × IsSingle pgdir va (l.num + 1) l'
unfolding lru_insert
insert_empty pgdir va l e = (
  record {
    pages = put l.pages 0 (record { next = some 0; prev = some 0; pgdir = pgdir; vaddr = va });
    head = some 0;
    num = l.num + 1;
  },
  ground arith,
  record { head = refl; page = refl; count = refl },
)

-- The search stops at pages[0], which is in the list.
first_linked-zero :
    (pgdir va n c : ℕ) (l : Lru) → IsSingle pgdir va n l → 0 < c → first_linked c 0 l.pages ≡ 0
unfolding first_linked
first_linked-zero pgdir va n zero l s h = absurd (omega arith)
first_linked-zero pgdir va n (suc k) l s h = rw s.page

-- pages[0] linked in before itself.
abbrev relinked : (ℕ → Page) → ℕ → Page
relinked pages =
    set_prev (set_next (set_prev (set_next pages 0 (some 0)) 0 (some 0)) 0 (some 0)) 0 (some 0)

insert_at-single :
    (l : Lru)
    → insert_at l 0 0 (some 0) ≡ some (record l { pages = relinked l.pages; num = l.num + 1 })
unfolding insert_at
insert_at-single l = refl

relinked-single :
    (pages : ℕ → Page) (pgdir va : ℕ)
    → pages 0 ≡ record { next = some 0; prev = some 0; pgdir = pgdir; vaddr = va }
    → relinked pages 0 ≡ pages 0
relinked-single pages pgdir va e = ground arith

insert_with :
    (pgdir va h : ℕ) (l : Lru)
    → l.head ≡ some h
    → lru_insert pgdir va 4 l ≡ insert_at l h (first_linked page_count 0 l.pages) (l.pages h).prev
unfolding lru_insert
insert_with pgdir va h l e = ground arith

delete_with :
    (fuel va h : ℕ) (l : Lru) → l.head ≡ some h → lru_delete fuel va l ≡ delete_from fuel h va l
unfolding lru_delete
delete_with fuel va h l e = ground arith

insert-IsSingle :
    (pgdir va n pgdir' va' : ℕ) (l : Lru)
    → IsSingle pgdir va n l
    → (l' : Lru) × (lru_insert pgdir' va' 4 l ≡ some l') × IsSingle pgdir va (n + 1) l'
insert-IsSingle pgdir va n pgdir' va' l s = (
  record l { pages = relinked l.pages; num = l.num + 1 },
  go ∙ insert_at-single l,
  record {
    head = s.head;
    page = relinked-single l.pages pgdir va s.page ∙ s.page;
    count = omega (arith, s.count);
  },
)
  where
    go : lru_insert pgdir' va' 4 l ≡ insert_at l 0 0 (some 0)
    go =
        insert_with pgdir' va' 0 l s.head
        ∙ ap₂ (insert_at l 0) (first_linked-zero pgdir va n page_count l s (omega arith))
            (ap (λ (q : Page). q.prev) s.page)

insert_rest :
    (pgdir va : ℕ) (xs : List (ℕ × ℕ)) (l : Lru) (n : ℕ)
    → IsSingle pgdir va n l
    → (l' : Lru) × (insert_all xs l ≡ some l') × IsSingle pgdir va (n + length xs) l'
unfolding insert_all
insert_rest pgdir va [] l n s =
    (l, refl, record { head = s.head; page = s.page; count = omega (arith, s.count) })
insert_rest pgdir va ((d, a) ∷ xs) l n s =
    let (l1, e1, s1) = insert-IsSingle pgdir va n d a l s in
    let (l2, e2, s2) = insert_rest pgdir va xs l1 (n + 1) s1 in
    (
      l2,
      rw (e1, insert_all) e2,
      record { head = s2.head; page = s2.page; count = omega (arith, s2.count) },
    )

-- However many user pages are inserted into an empty list, the list afterwards is pages[0] alone,
-- with the page directory and the address of the first one; only the counter follows the insertions.
pub insert_all-IsSingle :
    (pgdir va : ℕ) (xs : List (ℕ × ℕ)) (l : Lru)
    → l.head ≡ none
    → (l' : Lru) × (insert_all ((pgdir, va) ∷ xs) l ≡ some l')
      × IsSingle pgdir va (l.num + 1 + length xs) l'
unfolding insert_all
insert_all-IsSingle pgdir va xs l e =
    let (l1, e1, s1) = insert_empty pgdir va l e in
    rw (e1, insert_all) (insert_rest pgdir va xs l1 (l.num + 1) s1)

delete_from-runs_on :
    (fuel pgdir va n other : ℕ) (l : Lru)
    → IsSingle pgdir va n l
    → va ≢ other
    → delete_from fuel 0 other l ≡ runs_on
unfolding delete_from
delete_from-runs_on zero pgdir va n other l s ne = refl
delete_from-runs_on (suc f) pgdir va n other l s ne =
    let miss : (va == other) ≡ false = ground arith in
    rw (s.page, miss) (delete_from-runs_on f pgdir va n other l s ne)

-- lru_delete of any address but the first one inserted goes round for ever: it has not returned after
-- any number of rounds.
pub lru_delete-runs_on :
    (fuel pgdir va other : ℕ) (xs : List (ℕ × ℕ)) (l l' : Lru)
    → l.head ≡ none
    → insert_all ((pgdir, va) ∷ xs) l ≡ some l'
    → va ≢ other
    → lru_delete fuel other l' ≡ runs_on
lru_delete-runs_on fuel pgdir va other xs l l' e i ne =
    let (l1, e1, s1) = insert_all-IsSingle pgdir va xs l e in
    let same : l1 ≡ l' = ground (arith, e1, i) in
    let s = subst (IsSingle pgdir va (l.num + 1 + length xs)) same s1 in
    delete_with fuel other 0 l' s.head
    ∙ delete_from-runs_on fuel pgdir va (l.num + 1 + length xs) other l' s ne

-- pages[0] is out of the list, and `page_lru_head` still points to it.
pub record IsDangling (l : Lru) : Type 0 where
  pub head : l.head ≡ some 0
  pub next : (l.pages 0).next ≡ none

abbrev unlinked : (ℕ → Page) → ℕ → Page
unlinked pages = set_prev (set_next (set_next (set_prev pages 0 (some 0)) 0 (some 0)) 0 none) 0 none

delete_linked :
    (f va : ℕ) (l : Lru)
    → (l.pages 0).vaddr ≡ va
    → (l.pages 0).next ≡ some 0
    → (l.pages 0).prev ≡ some 0
    → delete_from (suc f) 0 va l ≡ returns (record l { pages = unlinked l.pages; num = l.num - 1 })
unfolding delete_from
delete_linked f va l v n p = ground arith

delete_unlinked :
    (g other : ℕ) (l : Lru) → (l.pages 0).next ≡ none → delete_from (suc g) 0 other l ≡ faults
unfolding delete_from
delete_unlinked g other l n = ground arith

delete_single :
    (f pgdir va n : ℕ) (l : Lru)
    → IsSingle pgdir va n l
    → (l' : Lru) × (lru_delete (suc f) va l ≡ returns l') × IsDangling l'
delete_single f pgdir va n l s =
    let l' : Lru = record l { pages = unlinked l.pages; num = l.num - 1 } in
    (
      l',
      delete_with (suc f) va 0 l s.head
          ∙ delete_linked f va l (ap (λ (q : Page). q.vaddr) s.page)
              (ap (λ (q : Page). q.next) s.page) (ap (λ (q : Page). q.prev) s.page),
      record { head = s.head; next = refl },
    )

delete_dangling : (g other : ℕ) (l : Lru) → IsDangling l → lru_delete (suc g) other l ≡ faults
delete_dangling g other l d =
    delete_with (suc g) other 0 l d.head ∙ delete_unlinked g other l d.next

-- lru_delete of the first address returns and takes the only page out of the list, but leaves
-- `page_lru_head` on it: the next lru_delete, whatever its address, follows a null pointer.
pub delete_twice-faults :
    (f g pgdir va n other : ℕ) (l : Lru)
    → IsSingle pgdir va n l
    → (l' : Lru) × (lru_delete (suc f) va l ≡ returns l') × (lru_delete (suc g) other l' ≡ faults)
delete_twice-faults f g pgdir va n other l s =
    let (l', e, d) = delete_single f pgdir va n l s in (l', e, delete_dangling g other l' d)
