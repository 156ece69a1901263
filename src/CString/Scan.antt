-- ===== src/CString/Scan.antt =====
-- The functions that run to the end of a string.
use mirai_os.Prelude.{
  ℕ, zero, suc, ◌+◌, ◌<◌, ◌==◌, ◌≡◌, refl, ℤ, truth, false, if◌then◌else◌, none, some, arith, ap,
  ◌∙◌, ◌↔◌, ◌≢◌, ◌||◌,
}
use mirai_os.CString.{
  Ptr, Mem, write_byte, strlen_loop, strlen, strcpy, memcmp, strcmp, accepted, strspn_loop, strspn,
  strstr_loop, strstr,
}
use mirai_os.CString.Memcpy.{copied, IsSafe, byte_source, byte_step}
use mirai_os.CString.Compare.{IsSame, HasBytes, memcmp-zero}

-- A string of `n` bytes, none of them 0, stands at `s` and is ended by 0.
abbrev pub IsString : Ptr → ℕ → Mem → Type 0
IsString s zero mem = mem s ≡ 0
IsString s (suc n) mem = ((mem s == 0) ≡ false) × IsString (s + 1) n mem

strlen_loop-IsString :
    (fuel s n ret : ℕ) (mem : Mem)
    → n < fuel
    → IsString s n mem
    → strlen_loop fuel s ret mem ≡ some (n + ret)
unfolding strlen_loop
strlen_loop-IsString zero s n ret mem lt h = absurd (omega arith)
strlen_loop-IsString (suc fuel) s zero ret mem lt h = rw h (ap some (omega arith))
strlen_loop-IsString (suc fuel) s (suc n) ret mem lt (ne, h) =
    rw ne
      (strlen_loop-IsString fuel (s + 1) n (ret + 1) mem (omega arith) h ∙ ap some (omega arith))

pub strlen-IsString :
    (fuel s n : ℕ) (mem : Mem) → n < fuel → IsString s n mem → strlen fuel s mem ≡ some n
unfolding strlen
strlen-IsString fuel s n mem lt h = strlen_loop-IsString fuel s n 0 mem lt h ∙ ap some (omega arith)

iff_trans : {A B C : Type 0} → A ↔ B → B ↔ C → A ↔ C
iff_trans f g = (λ a. g.0 (f.0 a), λ c. f.1 (g.1 c))

IsSame-IsString :
    (s1 s2 n m : ℕ) (mem : Mem)
    → IsString s1 n mem
    → IsString s2 m mem
    → IsSame s1 s2 (n + 1) mem ↔ ((n ≡ m) × IsSame s1 s2 n mem)
IsSame-IsString s1 s2 zero zero mem h1 h2 = ground arith
IsSame-IsString s1 s2 zero (suc m) mem h1 (ne, h2) = ground arith
IsSame-IsString s1 s2 (suc n) zero mem (ne, h1) h2 = ground arith
IsSame-IsString s1 s2 (suc n) (suc m) mem (ne, h1) (ne', h2) =
    ground (arith, IsSame-IsString (s1 + 1) (s2 + 1) n m mem h1 h2)

-- Where the strings at `s1` and `s2` have `n` and `m` bytes, `strcmp` returns, and its result is 0
-- exactly where the strings have the same bytes up to their ends.
pub strcmp-zero :
    (fuel s1 s2 n m : ℕ) (mem : Mem)
    → HasBytes mem
    → n < fuel
    → IsString s1 n mem
    → IsString s2 m mem
    → (z : ℤ) × (strcmp fuel s1 s2 mem ≡ some z)
      × ((truth z ≡ false) ↔ ((n ≡ m) × IsSame s1 s2 n mem))
unfolding strcmp
strcmp-zero fuel s1 s2 n m mem bytes lt h1 h2 =
    let zero_iff = memcmp-zero s1 s2 (n + 1) mem bytes in
    let same = IsSame-IsString s1 s2 n m mem h1 h2 in
    (
      memcmp s1 s2 (n + 1) mem,
      rw (strlen-IsString fuel s1 n mem lt h1, strcmp),
      iff_trans zero_iff same,
    )

module _ (dest src : Ptr) (mem0 : Mem) where
  source-kept :
      (i s all : ℕ) (mem : Mem)
      → src + i ≡ s
      → i < all
      → IsSafe dest src all
      → ((a : ℕ) → mem a ≡ copied dest src i mem0 a)
      → mem s ≡ mem0 s
  source-kept i s all mem es lt safe h = rw (← es) (byte_source dest src mem0 i all mem safe lt h)

  write-copied :
      (i d s all : ℕ) (mem : Mem)
      → dest + i ≡ d
      → src + i ≡ s
      → i < all
      → IsSafe dest src all
      → ((a : ℕ) → mem a ≡ copied dest src i mem0 a)
      → (a : ℕ) → write_byte mem d (mem s) a ≡ copied dest src (i + 1) mem0 a
  write-copied i d s all mem ed es lt safe h a =
      rw (← ed, ← es) (byte_step dest src mem0 i all mem safe lt h a)

  strcpy-copied :
      (fuel k i d s all : ℕ) (mem : Mem)
      → k < fuel
      → dest + i ≡ d
      → src + i ≡ s
      → i + k + 1 ≡ all
      → IsSafe dest src all
      → IsString s k mem0
      → ((a : ℕ) → mem a ≡ copied dest src i mem0 a)
      → (mem' : Mem) × (strcpy fuel d s mem ≡ some mem')
        × ((a : ℕ) → mem' a ≡ copied dest src all mem0 a)
  unfolding strcpy
  strcpy-copied zero k i d s all mem lt ed es e safe str h = absurd (omega arith)
  strcpy-copied (suc fuel) zero i d s all mem lt ed es e safe str h =
      let read = source-kept i s all mem es (omega arith) safe h ∙ str in
      let step = write-copied i d s all mem ed es (omega arith) safe h in
      (
        write_byte mem d (mem s),
        ground arith,
        λ a. step a ∙ ap (λ n. copied dest src n mem0 a) (omega arith),
      )
  strcpy-copied (suc fuel) (suc k) i d s all mem lt ed es e safe (ne, str) h =
      let lt' : i < all = omega arith in
      let read = source-kept i s all mem es lt' safe h in
      let step = write-copied i d s all mem ed es lt' safe h in
      let mem' = write_byte mem d (mem s) in
      let rest =
        strcpy-copied fuel k (i + 1) (d + 1) (s + 1) all mem' (omega arith) (omega arith)
          (omega arith) (omega arith) safe str step in
      (rest.0, ground (arith, rest.1), rest.2)

-- With more fuel than the string at `src` has bytes, `strcpy` ends, and where the areas are
-- disjoint or `dest` is not above `src`, the string with its end stands at `dest` and every other
-- byte is as it was.
pub strcpy-IsString :
    (fuel dest src n : ℕ) (mem : Mem)
    → n < fuel
    → IsSafe dest src (n + 1)
    → IsString src n mem
    → (mem' : Mem) × (strcpy fuel dest src mem ≡ some mem')
      × ((a : ℕ) → mem' a ≡ copied dest src (n + 1) mem a)
strcpy-IsString fuel dest src n mem lt safe str =
    strcpy-copied dest src mem fuel n 0 dest src (n + 1) mem lt (omega arith) (omega arith)
      (omega arith) safe str (λ a. ground arith)

strspn_loop-endless :
    (fuel s accept : ℕ) (mem : Mem)
    → mem s ≢ 0
    → mem accept ≡ mem s
    → strspn_loop fuel s accept 0 mem ≡ none
unfolding strspn_loop accepted
strspn_loop-endless zero s accept mem ne e = refl
strspn_loop-endless (suc fuel) s accept mem ne e =
    let rest = strspn_loop-endless fuel s accept mem ne e in ground (arith, rest)

-- Where the first byte of the string at `s` is the first of the bytes at `accept`, `strspn` does
-- not end, whatever the fuel.
pub strspn-endless :
    (fuel s accept : ℕ) (mem : Mem)
    → mem s ≢ 0
    → mem accept ≡ mem s
    → strspn fuel s accept mem ≡ none
unfolding strspn
strspn-endless fuel s accept mem ne e = strspn_loop-endless fuel s accept mem ne e

strstr_loop-prefix :
    (fuel str substr len at p n : ℕ) (mem : Mem)
    → n < fuel
    → str + at ≡ p
    → IsString p n mem
    → strstr_loop fuel str substr len at mem
      ≡ some (if n == 0 || truth (memcmp str substr len mem) then 0 else p)
unfolding strstr_loop
strstr_loop-prefix zero str substr len at p n mem lt e h = absurd (omega arith)
strstr_loop-prefix (suc fuel) str substr len at p zero mem lt e h = ground arith
strstr_loop-prefix (suc fuel) str substr len at p (suc n) mem lt e (ne, h) =
    let rest =
      strstr_loop-prefix fuel str substr len (at + 1) (p + 1) n mem (omega arith) (omega arith) h in
    rw e (ground (arith, rest))

-- `strstr` with enough fuel ends. It finds the second string only where it is a prefix of the
-- first, which is not empty: in every other case, an occurrence further on included, its result is
-- NULL.
pub strstr-prefix :
    (fuel str substr n len : ℕ) (mem : Mem)
    → n < fuel
    → len < fuel
    → IsString str n mem
    → IsString substr len mem
    → strstr fuel str substr mem
      ≡ some (if n == 0 || truth (memcmp str substr len mem) then 0 else str)
unfolding strstr
strstr-prefix fuel str substr n len mem lt lt' h h' =
    rw (strlen-IsString fuel substr len mem lt' h', strstr)
      (strstr_loop-prefix fuel str substr len 0 str n mem lt (omega arith) h)
