-- ===== src/CString/Compare.antt =====
-- `memset`, and what a result of 0 of `memcmp` says.
use mirai_os.Prelude.{
  ℕ, zero, suc, ◌+◌, ◌-◌, ◌%◌, ◌<◌, ◌==◌, ltb, ◌≡◌, refl, inl, inr, ℤ, pos, negsuc, sub_ℕ, neg,
  truth, false, if◌then◌else◌, arith, Bool-cases, ◌↔◌, not, leb,
}
use mirai_os.CString.{Ptr, Mem, write_byte, set_bytes, memset, sub_char, compare_bytes, memcmp}

-- The memory in which the `k` bytes from `str` on are `c`.
abbrev pub filled : Ptr → ℕ → ℕ → Mem → Mem
filled str c k mem a = if ltb a str then mem a else if ltb a (str + k) then c else mem a

set_bytes-filled :
    (str : Ptr) (c : ℕ) (mem0 : Mem) (n i all : ℕ) (mem : Mem)
    → i + n ≡ all
    → ((a : ℕ) → mem a ≡ filled str c i mem0 a)
    → (a : ℕ) → set_bytes n i str c mem a ≡ filled str c all mem0 a
unfolding set_bytes
set_bytes-filled str c mem0 zero i all mem e h a =
    let same : i ≡ all = omega arith in rw (← same) (h a)
set_bytes-filled str c mem0 (suc n) i all mem e h a =
    set_bytes-filled str c mem0 n (i + 1) all (write_byte mem (str + i) c) (omega arith)
      (λ b. let old = h b in ground arith) a

-- After `memset(str, c, n)` the `n` bytes at `str` are `c` modulo 256, and every other byte is as
-- it was.
pub memset_lem :
    (str : Ptr) (c n : ℕ) (mem : Mem) (a : Ptr)
    → memset str c n mem a ≡ filled str (c % 256) n mem a
unfolding memset
memset_lem str c n mem a =
    set_bytes-filled str (c % 256) mem n 0 n mem (omega arith) (λ b. ground arith) a

truth-pos : (n : ℕ) → truth (pos n) ≡ not (n == 0)
truth-pos zero = refl
truth-pos (suc n) = ground arith

truth-neg : (n : ℕ) → truth (neg n) ≡ not (n == 0)
truth-neg zero = refl
truth-neg (suc n) = ground arith

truth-sub : (a b : ℕ) → truth (sub_ℕ a b) ≡ not (a == b)
truth-sub a b = elim (Bool-cases (leb b a)) [
  | inl e ↦ ground (arith, truth-pos (a - b))
  | inr e ↦ ground arith
]

-- The difference of two bytes is 0 exactly where they are equal.
pub truth-sub_char : (a b : ℕ) → a < 256 → b < 256 → truth (sub_char a b) ≡ not (a == b)
truth-sub_char a b ha hb =
    ground (arith, truth-pos (a + 256 - b), truth-neg (b + 256 - a), truth-sub a b)

truth-first :
    (x y : ℤ) (a b : ℕ) {P : Type 0}
    → truth x ≡ not (a == b)
    → (truth y ≡ false) ↔ P
    → (truth (if truth x then x else y) ≡ false) ↔ ((a ≡ b) × P)
truth-first (pos zero) y a b e rest = ground (arith, rest)
truth-first (pos (suc n)) y a b e rest = ground (arith, rest)
truth-first (negsuc n) y a b e rest = ground (arith, rest)

-- The `n` bytes at `a` are those at `b`.
abbrev pub IsSame : Ptr → Ptr → ℕ → Mem → Type 0
IsSame a b zero mem = Unit
IsSame a b (suc n) mem = (mem a ≡ mem b) × IsSame (a + 1) (b + 1) n mem

abbrev pub HasBytes : Mem → Type 0
HasBytes mem = (a : Ptr) → mem a < 256

pub compare_bytes-zero :
    (n i : ℕ) (a b a' b' : Ptr) (mem : Mem)
    → HasBytes mem
    → a + i ≡ a'
    → b + i ≡ b'
    → (truth (compare_bytes n i a b mem) ≡ false) ↔ IsSame a' b' n mem
unfolding compare_bytes
compare_bytes-zero zero i a b a' b' mem bytes ea eb = ground arith
compare_bytes-zero (suc n) i a b a' b' mem bytes ea eb =
    let rest =
      compare_bytes-zero n (i + 1) a b (a' + 1) (b' + 1) mem bytes (omega arith) (omega arith) in
    rw (ea, eb)
      (truth-first (sub_char (mem a') (mem b')) (compare_bytes n (i + 1) a b mem) (mem a') (mem b')
        (truth-sub_char (mem a') (mem b') (bytes a') (bytes b')) rest)

-- On bytes, `memcmp(a, b, n)` is 0 exactly where the `n` bytes at `a` are those at `b`.
pub memcmp-zero :
    (a b : Ptr) (n : ℕ) (mem : Mem)
    → HasBytes mem
    → (truth (memcmp a b n mem) ≡ false) ↔ IsSame a b n mem
unfolding memcmp
memcmp-zero a b n mem bytes = compare_bytes-zero n 0 a b a b mem bytes (omega arith) (omega arith)
