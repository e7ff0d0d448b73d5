-- ===== src/Pmem/Tests.antt =====
-- The page allocator of kernel/pmem.c at concrete inputs.
use bright_s.Base.{
  ℕ, ◌+◌, ◌-◌, ◌*◌, ◌^◌, ◌<◌, ◌≤◌, ◌≡◌, ◌≢◌, ◌⊎◌, refl, List, [], ◌∷◌, true, false, not, ◌&&◌,
  arith,
}
use bright_s.Word.{bit, lowest}
use bright_s.Base.Members.{All}
use bright_s.Pmem.{
  Pmem, Region, max_pages, page_size, page_addr, bitmap_test, measure, free_from, free_regions,
  reserve_from, init, alloc_page, alloc_pages, free_pages, find_word, take_page, all_used,
  bitmap_clear, bitmap_set, set_run, find_run,
}
use bright_s.Pmem.Single.{Inv, Took, alloc_page_lem}
use bright_s.Pmem.Runs.{Free, alloc_pages_lem}
use bright_s.Pmem.Undo.{free_pages-alloc_pages}
use bright_s.Pmem.Measure.{Fits}
use bright_s.Pmem.Regions.{Apart, within_any}
use bright_s.Pmem.Reserve.{limit, reserved}
use bright_s.Pmem.Boot.{init_lem}

-- Two pages at a megabyte, and one, with bytes around it, at two megabytes.
abbrev low_region : Region
low_region = record { base = 1048576; size = 8192 }

abbrev high_region : Region
high_region = record { base = 2097153; size = 8191 }

abbrev memory : List Region
memory = low_region ∷ high_region ∷ []

abbrev before : Pmem
before = record { bitmap = []; base = 0; total_pages = 0; free_pages = 0 }

memory-Fits : All Fits memory
memory-Fits = (omega arith, (omega arith, tt))

memory-Apart : Apart memory
unfolding Apart within_any
memory-Apart = ((λ a h. ground arith), ((λ a h. refl), tt))

measured : measure memory (2 ^ 64 - 1) 0 ≡ (1048576, 3)
unfolding measure
measured = refl

unfoldable booted : Pmem
booted = init memory before

booted_base : booted.base ≡ 1048576
unfolding booted init measure free_regions free_from reserve_from
booted_base = refl

booted_total : booted.total_pages ≡ 3
unfolding booted init measure free_regions free_from reserve_from
booted_total = refl

some_page : (measure memory (2 ^ 64 - 1) 0).0 ≢ 2 ^ 64 - 1
unfolding measure
some_page = λ e. omega arith

booted-Inv : Inv booted
unfolding booted
booted-Inv = (init_lem memory before memory-Fits memory-Apart some_page).0

page_0 : (alloc_page booted).0 ≡ 1048576
unfolding booted init measure free_regions free_from reserve_from alloc_page find_word take_page
    all_used bitmap_clear lowest bitmap_test bit
page_0 = refl

-- The pages at a megabyte are two, so that a run of two is the whole first region.
run_of_two : (alloc_pages booted 2).0 ≡ 1048576
unfolding booted init measure free_regions free_from reserve_from alloc_pages find_run all_used
    bitmap_clear lowest bitmap_test bit
run_of_two = refl

-- The third page has the index 257, which is not below the number of pages.
unfoldable filled : Pmem
filled = (alloc_pages booted 2).1

third_is_free : bitmap_test filled.bitmap 257 ≡ false
unfolding filled booted init measure free_regions free_from reserve_from alloc_pages find_run
    all_used bitmap_clear bitmap_set set_run lowest bitmap_test bit
third_is_free = refl

third_is_refused : (alloc_page filled).0 ≡ 0
unfolding filled booted init measure free_regions free_from reserve_from alloc_pages find_run
    all_used bitmap_clear bitmap_set set_run lowest bitmap_test bit alloc_page find_word take_page
third_is_refused = refl

init_lem_example :
    Inv booted
    × ((j : ℕ)
        → j < max_pages
        → let a = booted.base + j * page_size in
          not (bitmap_test booted.bitmap j)
          ≡ (within_any memory a && not (reserved (limit booted) a)))
unfolding booted
init_lem_example = init_lem memory before memory-Fits memory-Apart some_page

alloc_page_lem_example :
    ((i : ℕ) × (i < max_pages)
      × (i < booted.total_pages)
      × (bitmap_test booted.bitmap i ≡ false)
      × ((j : ℕ) → j < i → bitmap_test booted.bitmap j ≡ true)
      × ((alloc_page booted).0 ≡ page_addr booted i)
      × Took booted (alloc_page booted).1 i 1)
    ⊎ (((j : ℕ) → j < booted.total_pages → j < max_pages → bitmap_test booted.bitmap j ≡ true)
        × (alloc_page booted ≡ (0, booted)))
alloc_page_lem_example = alloc_page_lem booted booted-Inv

alloc_pages_lem_example :
    ((r : ℕ) × (r + 2 ≤ max_pages)
      × Free booted.bitmap r 2
      × ((q : ℕ) → q < r → ¬ Free booted.bitmap q 2)
      × ((alloc_pages booted 2).0 ≡ page_addr booted r)
      × Took booted (alloc_pages booted 2).1 r 2)
    ⊎ (((q : ℕ) → q + 2 ≤ max_pages → ¬ Free booted.bitmap q 2)
        × (alloc_pages booted 2 ≡ (0, booted)))
alloc_pages_lem_example = alloc_pages_lem booted 2 booted-Inv (omega arith)

free_pages-alloc_pages_example :
    free_pages (alloc_pages booted 2).1 (alloc_pages booted 2).0 2 ≡ booted
free_pages-alloc_pages_example =
    free_pages-alloc_pages booted 2 booted-Inv (omega arith) (omega (arith, booted_base))
      (λ e. omega (arith, run_of_two))
