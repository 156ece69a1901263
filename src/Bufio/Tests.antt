-- ===== src/Bufio/Tests.antt =====
-- Runs and witnesses for the streams.
use mirai_os.Prelude.{ℕ, ◌≡◌, refl, true, false, some, List, [], ◌∷◌, ◌++◌, pos, neg, arith}
use mirai_os.Bufio.{File, Stream, SysWrite, fwrite_fbf, fwrite_lines, fflush, parse_mode}
use mirai_os.Bufio.Lines.{LinesFit, idle, fwrite_lines-Delivered}

-- A system call that writes to a list.
abbrev to_list : SysWrite (List ℕ)
to_list fd bytes w = (pos 0, w ++ bytes)

abbrev all_of : List ℕ → List ℕ
all_of w = w

abbrev file : File
file = record {
  fd = pos 1;
  mode = 1;
  free_buf = false;
  eof = false;
  error = false;
  cbuf = neg 1;
  content = [];
  size = 4;
}

two_lines-LinesFit : LinesFit 4 (65 ∷ 10 ∷ 66 ∷ 67 ∷ 10 ∷ [])
unfolding mirai_os.Bufio.line_size
two_lines-LinesFit = (omega arith, (omega arith, (omega arith, (omega arith, (omega arith, tt)))))

fwrite_lines-Delivered_example :
    (w' : List ℕ) × (fwrite_lines 6 to_list
        (65 ∷ 10 ∷ 66 ∷ 67 ∷ 10 ∷ [])
        (idle to_list all_of (λ fd bytes w. (refl, refl)) file (pos 0) [])
      ≡ some (true, idle to_list all_of (λ fd bytes w. (refl, refl)) file (pos 0) w'))
    × (w' ≡ [] ++ 65 ∷ 10 ∷ 66 ∷ 67 ∷ 10 ∷ [])
fwrite_lines-Delivered_example =
    fwrite_lines-Delivered to_list all_of (λ fd bytes w. (refl, refl)) file (pos 0) 6
      (65 ∷ 10 ∷ 66 ∷ 67 ∷ 10 ∷ []) [] (omega arith) two_lines-LinesFit
