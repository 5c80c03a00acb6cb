-- ===== src/Tests/Alloc.antt =====
-- src/alloc.c on the small machine, where the page frame of an address has its own number: a buffer
-- for a cache of two pages is aligned at an even page, and one for a cache of four at every fourth.
use cache_noise_visualizer.Base.{
  ℕ, ◌+◌, ◌*◌, ◌/◌, ◌%◌, le→ltb, ◌^◌, ◌≤◌, ◌<◌, ◌≡◌, refl, ap, ◌∙◌, true, false, [], ◌∷◌, arith,
  if◌then◌else◌,
}
use cache_noise_visualizer.Errors.{error_none, error_not_aligned, error_munmap}
use cache_noise_visualizer.Result.{Result, ok, done, failed}
use cache_noise_visualizer.SysInfo.CacheInfo.{CacheInfo, data_cache, read_prop}
use cache_noise_visualizer.SysInfo.Pagemap.{
  pagemap_entry_of, pagemap_entry_from, get_physical_address,
}
use cache_noise_visualizer.SysInfo.Pagemap.Translate.{get_physical_address-present}
use cache_noise_visualizer.SysInfo.Text.{str_starts_with}
use cache_noise_visualizer.SysInfo.Hugepages.{get_hugepagesize, get_hugepagenr, digits_of}
use cache_noise_visualizer.Stdio.{get_line, after_line, atoi_digits, scan_unsigned}
use cache_noise_visualizer.Base.Text.Decimal.{digits_value}
use cache_noise_visualizer.Memory.{Memory}
use cache_noise_visualizer.Alloc.{
  Search, search_state, search_loop, length_loop, test_alignment, free_aligned, alloc_aligned,
}
use cache_noise_visualizer.Alloc.Alignment.{IsHugeMapping, test_alignment_sound}
use cache_noise_visualizer.Alloc.Decides.{Backed, Verdict, test_alignment-decides}
use cache_noise_visualizer.Alloc.Length.{Covers, free_aligned-Covers}
use cache_noise_visualizer.Alloc.Masking.{Releases, alloc_aligned-masked}
use cache_noise_visualizer.Alloc.Leaks.{
  alloc_aligned-no_leak, alloc_aligned-found, alloc_aligned-dangling,
}
use cache_noise_visualizer.Tests.Machine.{World, start, files, memory, live, ledger}

abbrev two_pages : CacheInfo
two_pages = record {
  line_size = 64;
  total_size = 8192;
  cache_id = 0;
  cpu_id = 0;
  set_count = 64;
  ways_of_associativity = 2;
  level = 1;
  type = data_cache;
}

abbrev four_pages : CacheInfo
four_pages = record two_pages { total_size = 16384; ways_of_associativity = 4 }

pub huge : {W : Type 0} (v : W) → get_hugepagesize files v ≡ ok (2 ^ 21)
unfolding get_hugepagesize str_starts_with get_line after_line atoi_digits digits_value digits_of
huge v = refl

pub number : {W : Type 0} (v : W) → get_hugepagenr files 0 v ≡ ok 2
unfolding get_hugepagenr read_prop scan_unsigned digits_value
number v = refl

pub release-Releases :
    {W : Type 0} (m : Memory W) (cache : CacheInfo)
    → ((b n : ℕ) (v : W) → (m.munmap b n v).0 ≡ true)
    → cache.total_size ≤ 2 ^ 21
    → Releases files m cache (2 ^ 21) (2 ^ 21)
unfolding free_aligned length_loop
release-Releases m cache unmaps h = record {
  readable = huge;
  released =
      λ b v mapped. rw (huge v, le→ltb (2 ^ 21) cache.total_size h, unmaps b (2 ^ 21) v) refl;
}

two-Releases : Releases files memory two_pages (2 ^ 21) (2 ^ 21)
two-Releases = release-Releases memory two_pages (λ b n v. refl) (omega arith)

four-Releases : Releases files memory four_pages (2 ^ 21) (2 ^ 21)
four-Releases = release-Releases memory four_pages (λ b n v. refl) (omega arith)

-- The world behind the search for two pages.
abbrev second : Search
second = search_state 1 (4096 ∷ []) 8192 error_none

abbrev behind : World
behind = record start { held = 8192 ∷ 4096 ∷ [] }

found :
    search_loop files memory 2 (search_state 0 [] 0 error_none) two_pages (2 ^ 21) start
    ≡ done second behind
unfolding search_loop test_alignment pagemap_entry_of get_physical_address pagemap_entry_from
found = refl

abbrev after_found : World
after_found = record start { held = 8192 ∷ [] }

alloc_aligned-masked_example :
    alloc_aligned files memory 0 0 two_pages start ≡ done (error_none, 8192) after_found
alloc_aligned-masked_example =
    alloc_aligned-masked files memory two_pages (2 ^ 21) (2 ^ 21) two-Releases 0 0 2 start start
      behind second (number start) (omega arith) refl found

alloc_aligned-no_leak_example :
    (alloc_aligned files memory 0 0 two_pages start ≡ done (error_none, 8192) after_found)
    × (live 4096 after_found ≡ live 4096 start)
alloc_aligned-no_leak_example =
    alloc_aligned-no_leak files memory two_pages (2 ^ 21) (2 ^ 21) two-Releases live
      (ledger (2 ^ 21)) 0 0 2 start start behind second (number start) (omega arith) refl found 4096
      (omega arith)

alloc_aligned-found_example :
    (alloc_aligned files memory 0 0 two_pages start ≡ done (error_none, 8192) after_found)
    × (live 8192 after_found ≡ true)
    × (live 8192 start ≡ false)
alloc_aligned-found_example =
    alloc_aligned-found files memory two_pages (2 ^ 21) (2 ^ 21) two-Releases live (ledger (2 ^ 21))
      0 0 2 start start behind second (number start) (omega arith) refl found refl (omega arith)

abbrev refused_twice : Search
refused_twice = search_state 2 (4096 ∷ 8192 ∷ []) 8192 error_not_aligned

refused :
    search_loop files memory 2 (search_state 0 [] 0 error_none) four_pages (2 ^ 21) start
    ≡ done refused_twice behind
unfolding search_loop test_alignment pagemap_entry_of get_physical_address pagemap_entry_from
refused = refl

alloc_aligned-dangling_example :
    (alloc_aligned files memory 0 0 four_pages start ≡ done (error_none, 8192) start)
    × (live 8192 start ≡ false)
alloc_aligned-dangling_example =
    alloc_aligned-dangling files memory four_pages (2 ^ 21) (2 ^ 21) four-Releases live
      (ledger (2 ^ 21)) 0 0 2 start start behind refused_twice (number start) (omega arith) refl
      refused refl

free_aligned-Covers_example :
    (l : ℕ) × Covers (2 ^ 21) 8192 l
    × (free_aligned files memory 8192 two_pages behind ≡ (
        let r = memory.munmap 8192 l behind in
        if r.0 then done tt r.1 else failed error_munmap r.1))
free_aligned-Covers_example =
    free_aligned-Covers files memory 8192 two_pages behind (2 ^ 21) (huge behind) (omega arith)
      (omega arith) (omega arith)

pub ok-injective : (x y : ℕ) (r : Result ℕ) → r ≡ ok x → r ≡ ok y → x ≡ y
ok-injective x y r e f = cc

-- The addresses are their own translation.
pub translates : {W : Type 0} (a : ℕ) (v : W) → a < 2 ^ 48 → get_physical_address files a v ≡ ok a
unfolding pagemap_entry_of
translates a v h = translated ∙ ap ok (omega arith)
  where
    page : ℕ
    page = a / 2 ^ 12

    translated :
        get_physical_address files a v ≡ ok ((2 ^ 63 + page * 8 / 8) % 2 ^ 54 * 2 ^ 12 + a % 2 ^ 12)
    translated =
        get_physical_address-present files 12 a (2 ^ 63 + page * 8 / 8) v refl (omega arith)
          (omega arith) (omega arith) refl refl refl (omega arith) (omega arith)

identity :
    (offset p : ℕ) (v : World)
    → offset < 8192
    → get_physical_address files (8192 + offset) v ≡ ok p
    → p ≡ 8192 + offset
identity offset p v h found = ok-injective p _ _ found (translates (8192 + offset) v (omega arith))

identity-IsHugeMapping : IsHugeMapping (λ a. a) 8192 4096
identity-IsHugeMapping = record {
  contiguous = λ i r h. omega arith;
  frame = λ i. (i + 2, omega arith);
}

test_passes : test_alignment files memory 8192 two_pages 4096 start ≡ done tt start
unfolding test_alignment pagemap_entry_of get_physical_address pagemap_entry_from
test_passes = refl

test_alignment_sound_example : (8192 + 5000) % 8192 / 64 ≡ 5000 / 64
test_alignment_sound_example =
    test_alignment_sound files memory 8192 two_pages 4096 128 64 (λ a. a) start start (omega arith)
      (omega arith) (omega arith) (omega arith) (omega arith) (omega arith) (omega arith) identity
      identity-IsHugeMapping test_passes 5000 (omega arith)

two_pages-Backed : Backed files memory (λ a. a) 8192 8192
two_pages-Backed = record {
  touched = λ offset v h. (v, refl, translates (8192 + offset) v (omega arith));
}

test_alignment-decides_example :
    Verdict (λ a. a) 8192 two_pages 64 0 (test_alignment files memory 8192 two_pages 4096 start)
test_alignment-decides_example =
    test_alignment-decides files memory (λ a. a) 8192 two_pages 4096 two_pages-Backed (omega arith)
      (omega arith) (omega arith) start (omega arith) (omega arith)
