-- ===== src/CString/Tests.antt =====
-- Runs of the string functions, and instances of their theorems.
use mirai_os.Prelude.{◌==◌, ◌≡◌, refl, if◌then◌else◌, arith}
use mirai_os.CString.{Mem, memcpy, copy_longs, write_long}
use mirai_os.CString.Compare.{HasBytes}

-- "abc" stands at 100 and "bc" at 200.
abbrev memory : Mem
memory p =
    if p == 100
    then 97
    else if p == 101
    then 98
    else if p == 102
    then 99
    else if p == 200
    then 98
    else if p == 201
    then 99
    else 0

memory-HasBytes : HasBytes memory
memory-HasBytes p = ground arith

memcpy_runs : memcpy 300 96 8 memory 306 ≡ 99
unfolding memcpy copy_longs write_long
memcpy_runs = refl
