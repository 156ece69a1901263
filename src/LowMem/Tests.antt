-- ===== src/LowMem/Tests.antt =====
-- Instances of the theorems on low memory.
use mirai_os.Prelude.{◌*◌, ◌≡◌, refl, ltb, leb, ◌&&◌, arith}
use mirai_os.LowMem.{Bitmap, alloc_low_phys_pages, find_pages, find_in_seg, all_free, take_pages}
use mirai_os.LowMem.Alloc.{Allocated, alloc_low_phys_pages-Allocated}

-- The pages 18 to 23 are free.
abbrev map : Bitmap
map p = leb 18 p && ltb p 24

alloc_runs : (alloc_low_phys_pages 4 3 map).0 ≡ 18 * 4096
unfolding alloc_low_phys_pages find_pages find_in_seg all_free take_pages
alloc_runs = refl

alloc_low_phys_pages-Allocated_example : Allocated 4 3 map (alloc_low_phys_pages 4 3 map)
alloc_low_phys_pages-Allocated_example = alloc_low_phys_pages-Allocated 4 3 map (omega arith)
