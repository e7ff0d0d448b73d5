-- ===== src/Pmem.antt =====
-- kernel/pmem.c and kernel/pmem.h: the bitmap of physical pages, a list of 64-bit words in which
-- a set bit is a page in use. A physical address is a number, and 0 the null pointer.
pub mod Bits
pub mod Scan
pub mod Single
pub mod Runs
pub mod Release
pub mod Undo
pub mod Align
pub mod Measure
pub mod Regions
pub mod Init
pub mod Used
pub mod Reserve
pub mod Boot
mod Tests
use bright_s.Base.{
  ℕ, zero, suc, ◌+◌, ◌-◌, ◌*◌, ◌/◌, ◌%◌, ◌^◌, List, [], ◌∷◌, Option, none, some, Bool, true, false,
  not, ◌&&◌, ◌||◌, ◌==◌, ltb, leb, if◌then◌else◌, get_or, set, replicate, bit_and,
}
use bright_s.Word.{bit, complement, set_bit, clear_bit, lowest}

-- `BRIGHTS_PAGE_SIZE`, `PMEM_MAX_PAGES` and the length of `pmem_bitmap`.
abbrev pub page_size : ℕ
page_size = 4096

abbrev pub max_pages : ℕ
max_pages = 2097152

abbrev pub bitmap_words : ℕ
bitmap_words = 32768

-- `brights_mem_region_t`.
pub record Region : Type 0 where
  pub base : ℕ
  pub size : ℕ

-- The static variables.
pub record Pmem : Type 0 where
  pub bitmap : List ℕ
  pub base : ℕ
  pub total_pages : ℕ
  pub free_pages : ℕ

-- `++x` and `--x` on 64 bits.
abbrev pub succ64 : ℕ → ℕ
succ64 x = (x + 1) % 2 ^ 64

abbrev pub pred64 : ℕ → ℕ
pred64 x = (x + (2 ^ 64 - 1)) % 2 ^ 64

unfoldable pub bitmap_set : List ℕ → ℕ → List ℕ
bitmap_set b page_idx = set b (page_idx / 64) (set_bit (get_or b (page_idx / 64) 0) (page_idx % 64))

unfoldable pub bitmap_clear : List ℕ → ℕ → List ℕ
bitmap_clear b page_idx =
    set b (page_idx / 64) (clear_bit 64 (get_or b (page_idx / 64) 0) (page_idx % 64))

unfoldable pub bitmap_test : List ℕ → ℕ → Bool
bitmap_test b page_idx = bit (get_or b (page_idx / 64) 0) (page_idx % 64)

abbrev pub align_up_page : ℕ → ℕ
align_up_page value = bit_and ((value + (page_size - 1)) % 2 ^ 64) (complement 64 (page_size - 1))

abbrev pub align_down_page : ℕ → ℕ
align_down_page value = bit_and value (complement 64 (page_size - 1))

-- The pages of a region that lie whole inside it.
abbrev pub first_byte : Region → ℕ
first_byte r = align_up_page r.base

abbrev pub end_byte : Region → ℕ
end_byte r = align_down_page ((r.base + r.size) % 2 ^ 64)

-- The first loop of `brights_pmem_init`: `pmem_base` and `pmem_total_pages`.
unfoldable pub measure : List Region → ℕ → ℕ → ℕ × ℕ
measure [] base total = (base, total)
measure (r ∷ regions) base total =
    if leb (end_byte r) (first_byte r)
    then measure regions base total
    else measure regions (if ltb (first_byte r) base then first_byte r else base)
        ((total + (end_byte r - first_byte r) / page_size) % 2 ^ 64)

-- The loop over the pages of a region, n rounds at most.
unfoldable pub free_from : ℕ → ℕ → ℕ → Pmem → Pmem
free_from zero addr end s = s
free_from (suc n) addr end s =
    let idx : ℕ = (addr - s.base) / page_size in
    elim (ltb addr end) [
      | false ↦ s
      | true ↦ free_from n (addr + page_size) end (
          if ltb idx max_pages
          then record s { bitmap = bitmap_clear s.bitmap idx; free_pages = succ64 s.free_pages }
          else s)
    ]

unfoldable pub free_regions : List Region → Pmem → Pmem
free_regions [] s = s
free_regions (r ∷ regions) s = free_regions regions (
    if leb (end_byte r) (first_byte r)
    then s
    else free_from ((end_byte r - first_byte r) / page_size) (first_byte r) (end_byte r) s)

-- The loop that reserves the first megabyte, n rounds at most.
unfoldable pub reserve_from : ℕ → ℕ → Pmem → Pmem
reserve_from zero addr s = s
reserve_from (suc n) addr s =
    let idx : ℕ = (addr - s.base) / page_size in
    elim (ltb addr 1048576 && ltb addr ((s.base + s.total_pages * page_size) % 2 ^ 64)) [
      | false ↦ s
      | true ↦ reserve_from n (addr + page_size) (
          if leb s.base addr && (ltb idx max_pages && not (bitmap_test s.bitmap idx))
          then record s { bitmap = bitmap_set s.bitmap idx; free_pages = pred64 s.free_pages }
          else s)
    ]

-- The loop that marks the pages of n words as used.
unfoldable pub all_used : ℕ → List ℕ
all_used n = replicate n (2 ^ 64 - 1)

-- `brights_pmem_init`; null `regions` are no regions. A megabyte has 256 pages.
unfoldable pub init : List Region → Pmem → Pmem
init regions s =
    let (base, total) = measure regions (2 ^ 64 - 1) 0 in
    let capped : ℕ = if ltb max_pages total then max_pages else total in
    if base == 2 ^ 64 - 1
    then record s { base = base; total_pages = total; free_pages = 0 }
    else reserve_from 256 0 (
        free_regions regions (record {
          bitmap = all_used bitmap_words;
          base = base;
          total_pages = capped;
          free_pages = 0;
        }))

-- The scan of `brights_pmem_alloc_page` for a word with a bit that is clear.
unfoldable pub find_word : ℕ → List ℕ → Option ℕ
find_word k [] = none
find_word k (word ∷ b) =
    let rest = find_word (k + 1) b in
    if not (word == 2 ^ 64 - 1) && not (complement 64 word == 0) then some k else rest

-- The address of a page.
abbrev pub page_addr : Pmem → ℕ → ℕ
page_addr s idx = (s.base + idx * page_size) % 2 ^ 64

abbrev pub taken : Pmem → ℕ → Pmem
taken s idx = record s { bitmap = bitmap_set s.bitmap idx; free_pages = pred64 s.free_pages }

unfoldable pub take_page : Pmem → ℕ → ℕ × Pmem
take_page s idx = if leb s.total_pages idx then (0, s) else (page_addr s idx, taken s idx)

-- `brights_pmem_alloc_page`.
unfoldable pub alloc_page : Pmem → ℕ × Pmem
alloc_page s = elim (find_word 0 s.bitmap) [
  | none ↦ (0, s)
  | some i ↦ take_page s (i * 64 + lowest 64 (complement 64 (get_or s.bitmap i 0)))
]

-- What `brights_pmem_free_page` does with a page that is in range.
abbrev pub released : Pmem → ℕ → Pmem
released s idx =
    if bitmap_test s.bitmap idx
    then record s { bitmap = bitmap_clear s.bitmap idx; free_pages = succ64 s.free_pages }
    else s

-- `brights_pmem_free_page`.
unfoldable pub free_page : Pmem → ℕ → Pmem
free_page s addr =
    let idx : ℕ = (addr - s.base) / page_size in
    if addr == 0 || (ltb addr s.base || leb max_pages idx) then s else released s idx

-- The search of `brights_pmem_alloc_pages` over n pages from page i on; `found` pages before it
-- are free, the first of them at `start`. It stops at `count` pages, before `found` can wrap.
unfoldable pub find_run : ℕ → List ℕ → ℕ → ℕ → ℕ → ℕ → Option ℕ
find_run zero b i found start count = none
find_run (suc n) b i found start count =
    let from : ℕ = if found == 0 then i else start in
    elim (bitmap_test b i) [
      | true ↦ find_run n b (i + 1) 0 start count
      | false ↦ elim (found + 1 == count) [
        | true ↦ some from
        | false ↦ find_run n b (i + 1) (found + 1) from count
      ]
    ]

unfoldable pub set_run : ℕ → ℕ → List ℕ → List ℕ
set_run zero j b = b
set_run (suc n) j b = set_run n (j + 1) (bitmap_set b j)

-- `brights_pmem_alloc_pages`.
unfoldable pub alloc_pages : Pmem → ℕ → ℕ × Pmem
alloc_pages s count =
    if count == 0
    then (0, s)
    else if count == 1
    then alloc_page s
    else elim (find_run max_pages s.bitmap 0 0 0 count) [
      | none ↦ (0, s)
      | some start ↦ (
        page_addr s start,
        record s {
          bitmap = set_run count start s.bitmap;
          free_pages = (s.free_pages + (2 ^ 64 - count)) % 2 ^ 64;
        },
      )
    ]

-- The loop of `brights_pmem_free_pages`.
unfoldable pub free_run : ℕ → ℕ → Pmem → Pmem
free_run zero idx s = s
free_run (suc n) idx s = free_run n (idx + 1) (if ltb idx max_pages then released s idx else s)

-- `brights_pmem_free_pages`.
unfoldable pub free_pages : Pmem → ℕ → ℕ → Pmem
free_pages s addr count =
    if addr == 0 || (count == 0 || ltb addr s.base)
    then s
    else free_run count ((addr - s.base) / page_size) s

-- `brights_pmem_total_bytes`, `brights_pmem_free_bytes` and `brights_pmem_used_bytes`;
-- `brights_pmem_free_pages_count` reads a field.
pub total_bytes : Pmem → ℕ
total_bytes s = s.total_pages * page_size % 2 ^ 64

pub free_bytes : Pmem → ℕ
free_bytes s = s.free_pages * page_size % 2 ^ 64

pub used_bytes : Pmem → ℕ
used_bytes s = (s.total_pages + (2 ^ 64 - s.free_pages)) % 2 ^ 64 * page_size % 2 ^ 64
