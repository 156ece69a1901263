-- ===== src/DirCache/Each.antt =====
-- The entries of a directory as a list of what is read of each, and the changes of it.
use mirai_os.Prelude.{
  ℕ, zero, suc, ◌+◌, ◌-◌, ◌%◌, ◌^◌, ◌≤◌, ◌<◌, ◌≡◌, ◌==◌, refl, ap, ◌∙◌, inl, inr, Bool-cases, true,
  leb, ltb, ◌&&◌, if◌then◌else◌, List, [], ◌∷◌, ◌++◌, arith, length, get_elem?, some,
}
use mirai_os.DirCache.{
  DirEntry, Dir, put_entry, move_entries, entries_behind, dir_cache_add, dir_cache_remove,
}

-- The list without its element at `i`.
abbrev pub without {ℓ} : {A : Type ℓ} → ℕ → List A → List A
without i [] = []
without zero (x ∷ xs) = xs
without (suc i) (x ∷ xs) = x ∷ without i xs

-- Where the entry at `j` stands after the move.
pub move_entries-at :
    (n i j : ℕ) (es : ℕ → DirEntry)
    → move_entries n i es j ≡ (if leb i j && ltb j (i + n) then es (j + 1) else es j)
unfolding move_entries
move_entries-at zero i j es = ground arith
move_entries-at (suc n) i j es =
    move_entries-at n (i + 1) j (put_entry i (es (i + 1)) es) ∙ elim (Bool-cases (j == i)) [
      | inl e ↦ (let same : j ≡ i = ground arith in rw same (ground arith))
      | inr ne ↦ ground arith
    ]

module _ {ℓ} {A : Type ℓ} (f : DirEntry → A) where
  -- `f` of `n` entries from `i` on.
  abbrev pub each : (n i : ℕ) → (ℕ → DirEntry) → List A
  each zero i es = []
  each (suc n) i es = f (es i) ∷ each n (i + 1) es

  each-frame :
      (n i : ℕ) (es fs : ℕ → DirEntry)
      → ((j : ℕ) → j < i + n → fs j ≡ es j)
      → each n i fs ≡ each n i es
  each-frame zero i es fs same = refl
  each-frame (suc n) i es fs same =
      ap (λ e. f e ∷ each n (i + 1) fs) (same i (omega arith))
      ∙ ap (λ l. f (es i) ∷ l) (each-frame n (i + 1) es fs (λ j lt. same j (omega arith)))

  each-snoc : (n i : ℕ) (es : ℕ → DirEntry) → each (suc n) i es ≡ each n i es ++ f (es (i + n)) ∷ []
  each-snoc zero i es = let at : i ≡ i + 0 = omega arith in ap (λ j. f (es j) ∷ []) at
  each-snoc (suc n) i es =
      let at : i + 1 + n ≡ i + suc n = omega arith in
      ap (λ l. f (es i) ∷ l) (each-snoc n (i + 1) es)
      ∙ ap (λ j. f (es i) ∷ (each n (i + 1) es ++ f (es j) ∷ [])) at

  pub length-each : (n i : ℕ) (es : ℕ → DirEntry) → length (each n i es) ≡ n
  length-each zero i es = refl
  length-each (suc n) i es = ap suc (length-each n (i + 1) es)

  -- `dirCacheAdd`, for what does not depend on the fields that it sets.
  pub each-dir_cache_add :
      (e : DirEntry) (dir : Dir)
      → ((k p : ℕ) → f (record e { index = k; parent = p }) ≡ f e)
      → dir.cached_data ≡ true
      → let dir1 = (dir_cache_add true e dir).2 in
        each dir1.file_size 0 dir1.entries ≡ each dir.file_size 0 dir.entries ++ f e ∷ []
  unfolding dir_cache_add
  each-dir_cache_add e dir fields cached =
      let n = dir.file_size in
      let new = record e { index = n % 2 ^ 32; parent = dir.self } in
      let es = put_entry n new dir.entries in
      let more : n + 1 ≡ suc n = omega arith in
      let own : es (0 + n) ≡ new = ground arith in
      rw cached (
        ap (λ k. each k 0 es) more
        ∙ each-snoc n 0 es
        ∙ ap (λ l. l ++ f (es (0 + n)) ∷ []) (each-frame n 0 dir.entries es (λ j lt. ground arith))
        ∙ ap (λ x. each n 0 dir.entries ++ x ∷ []) (ap f own ∙ fields (n % 2 ^ 32) dir.self))

  -- Entries that stand one place further down.
  each-shift :
      (n k : ℕ) (es fs : ℕ → DirEntry)
      → ((j : ℕ) → k ≤ j → j < k + n → fs j ≡ es (j + 1))
      → each n k fs ≡ each n (k + 1) es
  each-shift zero k es fs same = refl
  each-shift (suc n) k es fs same =
      ap (λ e. f e ∷ each n (k + 1) fs) (same k (omega arith) (omega arith))
      ∙ ap (λ l. f (es (k + 1)) ∷ l)
          (each-shift n (k + 1) es fs (λ j low high. same j (omega arith) (omega arith)))

  each-without :
      (n k i : ℕ) (es fs : ℕ → DirEntry)
      → i ≤ n
      → ((j : ℕ) → j < k + n → fs j ≡ (if leb (k + i) j then es (j + 1) else es j))
      → each n k fs ≡ without i (each (suc n) k es)
  each-without n k zero es fs le same =
      each-shift n k es fs (λ j low high. same j high ∙ ground arith)
  each-without zero k (suc i) es fs le same = absurd (omega arith)
  each-without (suc n) k (suc i) es fs le same =
      let first : fs k ≡ es k = same k (omega arith) ∙ ground arith in
      ap (λ e. f e ∷ each n (k + 1) fs) first
      ∙ ap (λ l. f (es k) ∷ l)
          (each-without n (k + 1) i es fs (omega arith)
            (λ j high. same j (omega arith) ∙ ground arith))

  -- `dirCacheRemove`
  pub each-dir_cache_remove :
      (i : ℕ) (dir : Dir)
      → i < dir.file_size
      → dir.file_size < 2 ^ 32
      → (dir.entries i).index ≡ i
      → let dir1 = dir_cache_remove i dir in
        each dir1.file_size 0 dir1.entries ≡ without i (each dir.file_size 0 dir.entries)
  unfolding dir_cache_remove
  each-dir_cache_remove i dir lt small at =
      let n = dir.file_size - 1 in
      let behind = entries_behind dir.file_size (dir.entries i).index in
      let count : behind ≡ n - i = ground arith in
      let more : suc n ≡ dir.file_size = omega arith in
      each-without n 0 i dir.entries (move_entries behind i dir.entries) (omega arith)
        (λ j high. move_entries-at behind i j dir.entries ∙ ground arith)
      ∙ ap (λ m. without i (each m 0 dir.entries)) more

  pub get_elem?-each :
      (n k i : ℕ) (es : ℕ → DirEntry) → i < n → get_elem? (each n k es) i ≡ some (f (es (k + i)))
  get_elem?-each zero k i es lt = absurd (omega arith)
  get_elem?-each (suc n) k zero es lt =
      let at : k ≡ k + 0 = omega arith in ap (λ j. some (f (es j))) at
  get_elem?-each (suc n) k (suc i) es lt =
      let at : k + 1 + i ≡ k + suc i = omega arith in
      get_elem?-each n (k + 1) i es (omega arith) ∙ ap (λ j. some (f (es j))) at
