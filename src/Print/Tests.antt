-- ===== src/Print/Tests.antt =====
-- Runs and witnesses for the kernel's output.
use mirai_os.Prelude.{◌≡◌, refl, true, [], ◌∷◌, pos}
use mirai_os.Print.{decprint, decprint_loop, vprintk, vprintk_loop, int_arg}

-- 1000000000 is printed as nothing.
billion : decprint (pos 1000000000) ≡ []
unfolding decprint decprint_loop
billion = refl

-- printk("a%d\n", 42)
with_number :
    vprintk true (97 ∷ 37 ∷ 100 ∷ 10 ∷ []) (int_arg (pos 42) ∷ []) ≡ (97 ∷ 52 ∷ 50 ∷ 10 ∷ []) ∷ []
unfolding vprintk vprintk_loop decprint decprint_loop
with_number = refl
