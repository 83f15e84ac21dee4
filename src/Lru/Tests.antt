-- ===== src/Lru/Tests.antt =====
-- The page list of kalloc.c after the insertions of a process with three user pages.
use xv6_fork.Prelude.{◌≡◌, refl, arith, none, some, [], ◌∷◌}
use xv6_fork.Lru.{Page, Lru, returns, faults, runs_on, lru_delete}
use xv6_fork.Lru.Single.{
  IsSingle, insert_all, insert_all-IsSingle, lru_delete-runs_on, delete_twice-faults,
}

abbrev no_page : Page
no_page = record { next = none; prev = none; pgdir = 0; vaddr = 0 }

abbrev empty : Lru
empty = record { pages = λ i. no_page; head = none; num = 0 }

abbrev own_page : Page
own_page = record { next = some 0; prev = some 0; pgdir = 0x8dffe000; vaddr = 0 }

abbrev after_two : Lru
after_two = record { pages = λ i. own_page; head = some 0; num = 2 }

insert_all-IsSingle_example :
    (l : Lru) × (insert_all ((0x8dffe000, 0) ∷ (0x8dffe000, 4096) ∷ (0x8dffe000, 8192) ∷ []) empty
      ≡ some l)
    × IsSingle 0x8dffe000 0 3 l
insert_all-IsSingle_example =
    insert_all-IsSingle 0x8dffe000 0 ((0x8dffe000, 4096) ∷ (0x8dffe000, 8192) ∷ []) empty refl

inserted : Lru
inserted = (insert_all-IsSingle 0x8dffe000 0 ((0x8dffe000, 4096) ∷ []) empty refl).0

lru_delete-runs_on_example : lru_delete 1000 4096 inserted ≡ runs_on
lru_delete-runs_on_example =
    lru_delete-runs_on 1000 0x8dffe000 0 4096 ((0x8dffe000, 4096) ∷ []) empty inserted refl
      (unfold inserted in (insert_all-IsSingle 0x8dffe000 0 ((0x8dffe000, 4096) ∷ []) empty refl).1)
      (λ e. omega arith)

delete_twice-faults_example :
    (l : Lru) × (lru_delete 1 0 after_two ≡ returns l) × (lru_delete 1 77 l ≡ faults)
delete_twice-faults_example =
    delete_twice-faults 0 0 0x8dffe000 0 2 77 after_two
      (record { head = refl; page = refl; count = refl })
