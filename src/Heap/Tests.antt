-- ===== src/Heap/Tests.antt =====
-- Runs and witnesses for the heap.
use mirai_os.Prelude.{ℕ, ◌+◌, ◌≡◌, ◌≢◌, refl, true, false, some, List, [], ◌∷◌, arith}
use mirai_os.Heap.{Ptr, Mem, put, heap_alloc, heap_free, init_heap, take_area}
use mirai_os.Heap.Areas.{Area, area, IsAreas, Changed}
use mirai_os.Heap.Find.{first_fit}
use mirai_os.Heap.Alloc.{Allocated, heap_alloc-Allocated}
use mirai_os.Heap.Free.{freed, heap_free-freed}
use mirai_os.Heap.Joined.{heap_free-heap_alloc}
use mirai_os.Heap.Kernel.{KernelHeap, kmalloc}
use mirai_os.Heap.Kernel.Serve.{Serves, kmalloc-Serves}

abbrev empty_mem : Mem
empty_mem = λ a. 0

-- A heap from 1000 to 1160 of three areas: 32 bytes in use, 64 free, 64 in use.
abbrev three : Mem
three = put 1152 65 (put 1096 65 (put 1088 64 (put 1032 64 (put 1024 33 (put 1000 33 empty_mem)))))

abbrev areas : List Area
areas = area 32 true ∷ area 64 false ∷ area 64 true ∷ []

three-IsAreas : IsAreas three 1000 1160 areas
three-IsAreas = (
  refl,
  refl,
  refl,
  omega arith,
  (refl, refl, refl, omega arith, (refl, refl, refl, omega arith, refl)),
)

heap_alloc-Allocated_example :
    (r : Ptr × Mem) × (heap_alloc 5 16 1000 168 three ≡ some r)
    × Allocated 32 1000 1160 areas three (first_fit 32 areas) r
heap_alloc-Allocated_example =
    heap_alloc-Allocated 5 16 1000 168 three areas (omega arith) refl (omega arith) three-IsAreas

heap_free-freed_example :
    Changed 1000 1160
      (freed (area 32 true ∷ area 64 false ∷ []) 64 [])
      three
      (heap_free (1000 + 96 + 8) 1000 168 three)
heap_free-freed_example =
    heap_free-freed 1000 168 64 (area 32 true ∷ area 64 false ∷ []) [] three three-IsAreas
      (omega arith) (omega arith) refl refl (omega arith)

got_three : heap_alloc 5 16 1000 168 three ≡ some (1040, take_area 1032 32 three)
unfolding heap_alloc take_area mirai_os.Heap.find_area
got_three = refl

heap_free-heap_alloc_example :
    Changed 1000 1160 areas three (heap_free 1040 1000 168 (take_area 1032 32 three))
heap_free-heap_alloc_example =
    heap_free-heap_alloc 5 16 1000 168 three areas (1040, take_area 1032 32 three) (omega arith)
      refl three-IsAreas ((λ e. absurd (ground (arith, e))), ((λ e. refl), (tt, tt))) (omega arith)
      (omega arith) refl refl (omega arith) got_three (omega arith)

abbrev kernel : KernelHeap
kernel = record { start = 1000; size = 168; mem = three }

abbrev same_mem : Ptr → ℕ → Mem → Mem
same_mem p n mem = mem

kmalloc-Serves_example :
    (r : Ptr × KernelHeap) × (kmalloc 5 same_mem 100 kernel ≡ some r) × (r.0 ≢ 0) × Serves 100 r
kmalloc-Serves_example =
    kmalloc-Serves 5 100 64 true same_mem (area 32 true ∷ area 64 false ∷ []) kernel
      (λ p n mem a lt. refl) (omega arith) (omega arith) (omega arith) three-IsAreas (omega arith)
      (omega arith)

abbrev same_copy : Ptr → Ptr → ℕ → Mem → Mem
same_copy to from n mem = mem
