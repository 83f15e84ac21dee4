-- ===== src/Kalloc/Tests.antt =====
-- kalloc.c with two free pages above the end of a kernel.
use xv6_fork.Prelude.{ℕ, ◌+◌, ◌≡◌, refl, arith, none, some, [], ◌∷◌}
use xv6_fork.Kalloc.{Kmem, poke, kfree, take_page, count_pages, kmem_len}
use xv6_fork.Kalloc.Chain.{IsPage, IsFree, kfree-IsFree, take_page-IsFree}
use xv6_fork.Lru.{returns}
use xv6_fork.Kalloc.Reclaim.{Memory, kalloc}
use xv6_fork.Kalloc.Reclaim.Serves.{kalloc-take_page, kalloc_refuses, reclaim_alone}
use xv6_fork.Kalloc.Owners.{Clients, Reach, here, next, allocs, refuses, IsShared, Reach-IsShared}

abbrev kernel_end : ℕ
kernel_end = 0x80110000

abbrev low : ℕ
low = 0x80200000

abbrev high : ℕ
high = 0x80201000

abbrev nothing_free : Kmem
nothing_free = record { freelist = 0; words = λ a. 0 }

abbrev two_free : Kmem
two_free = record { freelist = high; words = poke (λ a. 0) high low }

low-IsPage : IsPage kernel_end low
low-IsPage = omega arith

high-IsPage : IsPage kernel_end high
high-IsPage = omega arith

two_free-IsFree : IsFree kernel_end two_free (high ∷ low ∷ [])
two_free-IsFree = record {
  chain = (refl, high-IsPage, (refl, low-IsPage, refl));
  distinct = (((λ e. omega arith), tt), (tt, tt));
}

nothing_free-IsFree : IsFree kernel_end nothing_free []
nothing_free-IsFree = record { chain = refl; distinct = tt }

counts_two : kmem_len 3 two_free ≡ some 2
unfolding kmem_len count_pages
counts_two = refl

rejects_unaligned : kfree kernel_end (low + 4) nothing_free ≡ none
unfolding kfree
rejects_unaligned = refl

kfree-IsFree_example :
    (m : Kmem) × (kfree kernel_end low nothing_free ≡ some m) × IsFree kernel_end m (low ∷ [])
kfree-IsFree_example = kfree-IsFree kernel_end low nothing_free [] low-IsPage tt nothing_free-IsFree

take_page-IsFree_example :
    (m : Kmem) × (take_page two_free ≡ (high, m)) × IsFree kernel_end m (low ∷ [])
take_page-IsFree_example = take_page-IsFree kernel_end high two_free (low ∷ []) two_free-IsFree

abbrev no_user_pages : Kmem → Memory
no_user_pages k = record {
  kmem = k;
  lru = record {
    pages = λ i. record { next = none; prev = none; pgdir = 0; vaddr = 0 };
    head = none;
    num = 0;
  };
  pte = λ d a. none;
  swapbitmap = λ b. 0;
  swap_fs = record { block = λ k i. 0; size = 0; inodestart = 0; bmapstart = 0 };
  written = [];
}

abbrev before : Clients
before = record { mem = no_user_pages two_free; owned = [] }

abbrev one_taken : Clients
one_taken = record { mem = no_user_pages (record two_free { freelist = low }); owned = high ∷ [] }

abbrev both_taken : Clients
both_taken = record {
  mem = no_user_pages (record two_free { freelist = 0 });
  owned = low ∷ high ∷ [];
}

before-IsShared : IsShared kernel_end 2 before
before-IsShared = record {
  unused = high ∷ low ∷ [];
  free = two_free-IsFree;
  distinct = (((λ e. omega arith), tt), (tt, tt));
  pages = tt;
  count = omega arith;
}

first_kalloc : kalloc 1 0 before.mem ≡ returns (high, one_taken.mem)
unfolding take_page
first_kalloc = kalloc-take_page 0 0 before.mem (λ e. omega arith)

second_kalloc : kalloc 1 0 one_taken.mem ≡ returns (low, both_taken.mem)
unfolding take_page
second_kalloc = kalloc-take_page 0 0 one_taken.mem (λ e. omega arith)

third_kalloc : kalloc 1 0 both_taken.mem ≡ returns (0, both_taken.mem)
third_kalloc =
    kalloc_refuses 0 0 both_taken.mem both_taken.mem refl (reclaim_alone 0 both_taken.mem refl)

taking : Reach kernel_end before both_taken
taking =
    next
      (next (next here (allocs 0 0 [] (λ e. omega arith) first_kalloc))
        (allocs 0 0 (high ∷ []) (λ e. omega arith) second_kalloc))
      (refuses 0 0 (low ∷ high ∷ []) refl (reclaim_alone 0 both_taken.mem refl) third_kalloc)

Reach-IsShared_example : IsShared kernel_end 2 both_taken
Reach-IsShared_example = Reach-IsShared kernel_end 2 before-IsShared taking
