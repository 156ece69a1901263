-- ===== src/DirCache/Names.antt =====
-- The names of a directory's entries, as lists of bytes.
use mirai_os.Prelude.{
  ℕ, zero, suc, ◌+◌, ◌<◌, ◌≡◌, ◌==◌, refl, ap, ◌∙◌, sym, inl, inr, Bool-cases, Bool, true, false,
  if◌then◌else◌, Option, none, some, List, [], ◌∷◌, arith, length,
}
use mirai_os.DirCache.{
  Ptr, Mem, DirEntry, Dir, name_byte, has_name, same_bytes, bytes_of, length_from,
}
use mirai_os.DirCache.Each.{each}

-- The name of an entry.
abbrev pub entry_name : Mem → DirEntry → List ℕ
entry_name mem e = bytes_of e.name_len 0 (name_byte mem e)

-- The names of `n` entries from `i` on.
abbrev pub names_from : (n i : ℕ) → Mem → (ℕ → DirEntry) → List (List ℕ)
names_from n i mem es = each (entry_name mem) n i es

abbrev pub names : Mem → Dir → List (List ℕ)
names mem dir = names_from dir.file_size 0 mem dir.entries

abbrev pub same_list : List ℕ → List ℕ → Bool
same_list [] [] = true
same_list [] (y ∷ ys) = false
same_list (x ∷ xs) [] = false
same_list (x ∷ xs) (y ∷ ys) = let rest = same_list xs ys in if x == y then rest else false

-- The place of the first list that is `key`, where they are counted from `i`.
abbrev pub position : (key : List ℕ) (i : ℕ) → List (List ℕ) → Option ℕ
position key i [] = none
position key i (x ∷ xs) =
    let rest = position key (i + 1) xs in if same_list x key then some i else rest

-- The bytes of the string at `name`, which are not 0, and the 0 behind them.
abbrev pub IsName : Mem → Ptr → List ℕ → Type 0
IsName mem name [] = mem name ≡ 0
IsName mem name (b ∷ bs) = (mem name ≡ b) × ((b == 0) ≡ false) × IsName mem (name + 1) bs

length-bytes_of : (n i : ℕ) (f : ℕ → ℕ) → length (bytes_of n i f) ≡ n
unfolding bytes_of
length-bytes_of zero i f = refl
length-bytes_of (suc n) i f = ap suc (length-bytes_of n (i + 1) f)

same_list-lengths : (xs ys : List ℕ) → (length xs == length ys) ≡ false → same_list xs ys ≡ false
same_list-lengths [] [] h = h
same_list-lengths [] (y ∷ ys) h = refl
same_list-lengths (x ∷ xs) [] h = refl
same_list-lengths (x ∷ xs) (y ∷ ys) h = ground (arith, same_list-lengths xs ys)

same_bytes-same_list :
    (n i : ℕ) (a b : ℕ → ℕ) → same_bytes n i a b ≡ same_list (bytes_of n i a) (bytes_of n i b)
unfolding same_bytes bytes_of
same_bytes-same_list zero i a b = refl
same_bytes-same_list (suc n) i a b =
    ap (λ rest. if a i == b i then rest else false) (same_bytes-same_list n (i + 1) a b)

bytes_of-IsName :
    (mem : Mem) (name i : ℕ) (key : List ℕ)
    → IsName mem (name + i) key
    → bytes_of (length key) i (λ j. mem (name + j)) ≡ key
unfolding bytes_of
bytes_of-IsName mem name i [] h = refl
bytes_of-IsName mem name i (b ∷ bs) h =
    let at : name + i + 1 ≡ name + (i + 1) = omega arith in
    ap (λ x. x ∷ bytes_of (length bs) (i + 1) (λ j. mem (name + j))) h.0
    ∙ ap (λ l. b ∷ l) (bytes_of-IsName mem name (i + 1) bs (rw⁻¹ at h.2))

-- The test of the lookup compares the names.
pub has_name-same_list :
    (mem : Mem) (name : Ptr) (key : List ℕ) (e : DirEntry)
    → IsName mem name key
    → has_name name (length key) mem e ≡ same_list (entry_name mem e) key
has_name-same_list mem name key e h = elim (Bool-cases (e.name_len == length key)) [
  | inl eq ↦
      (let f = name_byte mem e in
        let g = λ (i : ℕ). mem (name + i) in
        let len : length key ≡ e.name_len = ground arith in
        let at : name + 0 ≡ name = omega arith in
        rw eq (
          same_bytes-same_list (length key) 0 f g
          ∙ ap (λ n. same_list (bytes_of n 0 f) (bytes_of (length key) 0 g)) len
          ∙ ap (same_list (bytes_of e.name_len 0 f)) (bytes_of-IsName mem name 0 key (rw at h))))
  | inr ne ↦
      (let diff : (length (entry_name mem e) == length key) ≡ false =
          rw (length-bytes_of e.name_len 0 (name_byte mem e)) ne in
        rw ne (sym (same_list-lengths (entry_name mem e) key diff)))
]

pub length_from-IsName :
    (fuel name result : ℕ) (mem : Mem) (key : List ℕ)
    → IsName mem name key
    → length key < fuel
    → length_from fuel name result mem ≡ some (result + length key)
unfolding length_from
length_from-IsName zero name result mem key h enough = absurd (omega arith)
length_from-IsName (suc fuel) name result mem [] h enough = ground arith
length_from-IsName (suc fuel) name result mem (b ∷ bs) h enough =
    let more : (mem name == 0) ≡ false = ground arith in
    rw more (
      length_from-IsName fuel (name + 1) (result + 1) mem bs h.2 (omega arith)
      ∙ ap some (omega arith))
