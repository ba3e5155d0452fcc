-- ===== src/GuestHeap/Tests.antt =====
-- Runs of the allocator on a heap of 96 bytes at 0x1000, and the theorems at these runs.
use ps5_homebrew_lab.Common.{
  ℕ, ◌+◌, ◌%◌, ◌≤◌, ◌<◌, ◌≡◌, ◌≢◌, ◌⊎◌, refl, [], ◌∷◌, arith, ok, err, precondition, limit,
}
use ps5_homebrew_lab.GuestHeap.{
  Block, Heap, Memory, init, validate, validate_blocks, rounded, find, find_index, find_free,
  block_at, mark, shrink, shrink_at, merge_next, merge_previous, grow, query, alloc, free, release,
  calloc, fill, copy, realloc, reallocate, resize, move_block,
}
use ps5_homebrew_lab.GuestHeap.Valid.{IsValid, validate-IsValid}
use ps5_homebrew_lab.GuestHeap.Calls.{free-IsValid}
use ps5_homebrew_lab.GuestHeap.Realloc.{realloc-IsValid}
use ps5_homebrew_lab.GuestHeap.Laws.{
  query-alloc, alloc_placement, query-free, query_disjoint, alloc-err,
}
use ps5_homebrew_lab.GuestHeap.Moved.{Holds}
use ps5_homebrew_lab.GuestHeap.Contents.{calloc_zeroed, realloc_contents, realloc_others}

abbrev heap : ℕ → ℕ → ℕ → ℕ → Block
heap o s r u = record { offset = o; size = s; requested = r; used = u }

abbrev fresh : Heap
fresh = record { base = 4096; bytes = 96; capacity = 4; blocks = heap 0 96 0 0 ∷ [] }

abbrev one : Heap
one = record fresh { blocks = heap 0 32 20 1 ∷ heap 32 64 0 0 ∷ [] }

abbrev two : Heap
two = record fresh { blocks = heap 0 32 20 1 ∷ heap 32 16 7 1 ∷ heap 48 48 0 0 ∷ [] }

abbrev moved : Heap
moved = record fresh { blocks = heap 0 32 0 0 ∷ heap 32 16 7 1 ∷ heap 48 48 40 1 ∷ [] }

abbrev full : Heap
full = record fresh { blocks = heap 0 96 96 1 ∷ [] }

-- Byte a holds a modulo 256.
abbrev memory : Memory
memory a = a % 256

init_run : init 4096 96 4 ≡ ok fresh
unfolding init
init_run = refl

alloc_run : alloc fresh 20 ≡ ok (one, 4096)
unfolding alloc validate validate_blocks rounded find_free block_at mark shrink shrink_at
alloc_run = refl

alloc_run2 : alloc one 7 ≡ ok (two, 4128)
unfolding alloc validate validate_blocks rounded find_free block_at mark shrink shrink_at
alloc_run2 = refl

free_run : free one 4096 ≡ ok fresh
unfolding free release validate validate_blocks find find_index merge_next merge_previous mark
    block_at
free_run = refl

full_run : alloc full 1 ≡ err limit
unfolding alloc validate validate_blocks rounded find_free
full_run = refl

calloc_run : calloc one memory 7 1 ≡ ok (two, fill memory 4128 7, 4128)
unfolding calloc alloc validate validate_blocks rounded find_free block_at mark shrink shrink_at
calloc_run = refl

realloc_run : realloc two memory 4096 40 ≡ ok (moved, copy memory 4144 4096 20, 4144)
unfolding realloc reallocate resize move_block grow alloc free release validate validate_blocks
    rounded find find_index find_free block_at mark shrink shrink_at merge_next merge_previous
realloc_run = refl

query_run : query two 4096 ≡ ok 20
unfolding query validate validate_blocks find find_index block_at
query_run = refl

query_run2 : query two 4128 ≡ ok 7
unfolding query validate validate_blocks find find_index block_at
query_run2 = refl

query_first : query one 4096 ≡ ok 20
unfolding query validate validate_blocks find find_index block_at
query_first = refl

validate_run : validate two ≡ ok tt
unfolding validate validate_blocks
validate_run = refl

full-IsValid : IsValid full
full-IsValid = omega arith

validate-IsValid_example : IsValid two
validate-IsValid_example = (validate-IsValid two).0 validate_run

free-IsValid_example : IsValid fresh
free-IsValid_example = free-IsValid one 4096 fresh free_run

realloc-IsValid_example : IsValid moved
realloc-IsValid_example =
    realloc-IsValid two memory 4096 40 moved (copy memory 4144 4096 20) 4144 realloc_run

query-alloc_example : query two 4128 ≡ ok 7
query-alloc_example = query-alloc one 7 two 4128 alloc_run2 4128

alloc_placement_example :
    (0 < 4128)
    × (4128 % 16 ≡ 0)
    × (4096 ≤ 4128)
    × (4128 + 7 ≤ 4096 + 96)
    × (query one 4128 ≡ err precondition)
    × ((a r : ℕ) → query one a ≡ ok r → (a + r ≤ 4128) ⊎ (4128 + 7 ≤ a))
alloc_placement_example = alloc_placement one 7 two 4128 alloc_run2

query-free_example : query fresh 4096 ≡ err precondition
query-free_example = query-free one 4096 fresh (omega arith) free_run 4096

query_disjoint_example : (4096 + 20 ≤ 4128) ⊎ (4128 + 7 ≤ 4096)
query_disjoint_example = query_disjoint two 4096 4128 20 7 query_run query_run2 (omega arith)

alloc-err_example : (limit ≡ limit) × ((0 < 1) ⊎ (96 < 1))
unfolding block_at
alloc-err_example = alloc-err full 1 limit 0 full-IsValid full_run (omega arith)

calloc_zeroed_example :
    (query two 4128 ≡ ok 7) × ((j : ℕ) → j < 7 → fill memory 4128 7 (4128 + j) ≡ 0)
calloc_zeroed_example = calloc_zeroed one memory 7 1 two (fill memory 4128 7) 4128 calloc_run

realloc_contents_example :
    ((◌≡◌ {A = ℕ} 40 0) × (◌≡◌ {A = ℕ} 4144 0) × (query moved 4096 ≡ err precondition))
    ⊎ ((◌≢◌ {A = ℕ} 40 0)
        × (query moved 4144 ≡ ok 40)
        × ((◌≡◌ {A = ℕ} 4144 4096) ⊎ (query moved 4096 ≡ err precondition))
        × Holds (copy memory 4144 4096 20) 4144 memory 4096 20)
realloc_contents_example =
    realloc_contents two memory 4096 40 moved (copy memory 4144 4096 20) 4144 realloc_run 20
      query_run

realloc_others_example :
    (query moved 4128 ≡ ok 7) × Holds (copy memory 4144 4096 20) 4128 memory 4128 7
realloc_others_example =
    realloc_others two memory 4096 40 moved (copy memory 4144 4096 20) 4144 realloc_run 4128 7
      (omega arith) query_run2
