-- ===== src/Printf/Digits.antt =====
-- The decimal digits of a number, and the number that a reader makes of them.
use native.Mathlib.Numerals.{unary_clauses}
use mirai_os.Prelude.{
  ℕ, zero, suc, ◌+◌, ◌-◌, ◌*◌, ◌/◌, ◌%◌, ◌^◌, ◌≤◌, ◌<◌, ◌==◌, ◌≡◌, refl, pos, false, List, [], ◌∷◌,
  ◌++◌, length, length-append, arith, ap, sym, ◌∙◌, Bool-cases, inl, inr, All,
}
use mathlib.Core.Path.{subst}
use mirai_os.Printf.{Output, done, bind, add_to_buf, dec_loop, dec_digits}

-- Digits from the last one on, and what they are worth.
abbrev pub value : List ℕ → ℕ
value [] = 0
value (c ∷ ds) = (c - 48) + 10 * value ds

abbrev pub IsDigit : ℕ → Type 0
IsDigit c = (48 ≤ c) × (c ≤ 57)

-- The first digit, which stands last, is not 0.
abbrev pub IsTop : List ℕ → Type 0
IsTop [] = ⊥
IsTop (c ∷ []) = 48 < c
IsTop (c ∷ d ∷ ds) = IsTop (d ∷ ds)

-- The digits of 0 are `none`, those of other numbers do not start with 0.
abbrev pub IsLed : List ℕ → ℕ → List ℕ → Type 0
IsLed none zero ds = ds ≡ none
IsLed none (suc n) ds = IsTop ds

-- `dec_loop` has added the digits of `n`, of which there are at most `k`; for 0 it adds `none`.
pub record Digits (none : List ℕ) (n k : ℕ) (temp : List ℕ) (o : Output) : Type 0 where
  pub digits : List ℕ
  pub output : o ≡ done (temp ++ digits)
  pub worth : value digits ≡ n
  pub all : All IsDigit digits
  pub count : length digits ≤ k
  pub lead : IsLed none n digits

append_nil : (xs : List ℕ) → xs ++ [] ≡ xs
append_nil [] = refl
append_nil (x ∷ xs) = ap (λ ys. x ∷ ys) (append_nil xs)

append_cons : (xs : List ℕ) (x : ℕ) (ys : List ℕ) → (xs ++ x ∷ []) ++ ys ≡ xs ++ x ∷ ys
append_cons [] x ys = refl
append_cons (z ∷ xs) x ys = ap (λ zs. z ∷ zs) (append_cons xs x ys)

pub add_to_buf-done :
    (n : ℕ) (buf : List ℕ) (c : ℕ)
    → length buf < n
    → add_to_buf (pos n) buf c ≡ done (buf ++ c ∷ [])
unfolding add_to_buf
add_to_buf-done n buf c h = let free : (length buf == n) ≡ false = ground arith in rw free

IsTop-cons : (c : ℕ) (ds : List ℕ) → IsTop ds → IsTop (c ∷ ds)
IsTop-cons c [] h = absurd h
IsTop-cons c (d ∷ ds) h = h

-- The last digit of a number above 0, and the digits before it.
IsLed-cons :
    (n q : ℕ) (ds : List ℕ) → 0 < n → q ≡ n / 10 → IsLed [] q ds → IsLed [] n ((n % 10 + 48) ∷ ds)
IsLed-cons zero q ds lt e h = absurd (omega arith)
IsLed-cons (suc n) zero ds lt e h =
    let last : 48 < suc n % 10 + 48 = omega (arith, e) in
    subst (λ t. IsTop ((suc n % 10 + 48) ∷ t)) (sym h) last
IsLed-cons (suc n) (suc q) ds lt e h = IsTop-cons (suc n % 10 + 48) ds h

dec_loop-more :
    (fuel k n : ℕ) (temp : List ℕ)
    → 0 < n
    → length temp < 100
    → let longer = temp ++ (n % 10 + 48) ∷ [] in
      Digits [] (n / 10) k longer (dec_loop fuel (n / 10) longer)
      → Digits [] n
          (suc k)
          temp
          (bind (add_to_buf (pos 100) temp (n % 10 + 48)) (dec_loop fuel (n / 10)))
dec_loop-more fuel k n temp lt room rest =
    let c = n % 10 + 48 in
    let worth = rest.worth in
    let count = rest.count in
    rw (add_to_buf-done 100 temp c room) (record {
      digits = c ∷ rest.digits;
      output = rest.output ∙ ap done (append_cons temp c rest.digits);
      worth = rw worth (omega arith);
      all = (ground arith, rest.all);
      count = omega (arith, count);
      lead = IsLed-cons n (n / 10) rest.digits lt refl rest.lead;
    })

dec_loop-stop :
    (fuel k n : ℕ) (temp : List ℕ) → n ≡ 0 → Digits [] n k temp (dec_loop (suc fuel) n temp)
unfolding dec_loop
dec_loop-stop fuel k n temp z = rw z (record {
  digits = [];
  output = ap done (sym (append_nil temp));
  worth = refl;
  all = tt;
  count = omega arith;
  lead = refl;
})

-- Ten is written as a factor.
div_less : (k n : ℕ) → n < 10 ^ suc k → n / 10 < 10 ^ k
div_less k n h =
    let unary : 10 ^ suc k ≡ 10 ^ k * 10 = simp unary_clauses in ground (arith, rw unary at h)

dec_loop-Digits :
    (fuel k n : ℕ) (temp : List ℕ)
    → k < fuel
    → n < 10 ^ k
    → length temp + k ≤ 100
    → Digits [] n k temp (dec_loop fuel n temp)
unfolding dec_loop
dec_loop-Digits zero k n temp lt small room = absurd (omega arith)
dec_loop-Digits (suc fuel) zero n temp lt small room = dec_loop-stop fuel zero n temp (omega arith)
dec_loop-Digits (suc fuel) (suc k) n temp lt small room = elim (Bool-cases (n == 0)) [
  | inl e ↦ dec_loop-stop fuel (suc k) n temp (ground arith)
  | inr e ↦
      let c = n % 10 + 48 in
      let long = length-append temp (c ∷ []) in
      let rest =
        dec_loop-Digits fuel k (n / 10) (temp ++ c ∷ []) (omega arith) (div_less k n small)
          (omega (arith, long)) in
      rw e (dec_loop-more fuel k n temp (ground arith) (omega arith) rest)
]

IsLed-weaken :
    (none none' : List ℕ) (n : ℕ) (ds : List ℕ) → 0 < n → IsLed none n ds → IsLed none' n ds
IsLed-weaken none none' zero ds lt h = absurd (omega arith)
IsLed-weaken none none' (suc n) ds lt h = h

-- With more than 20 rounds the digits of a number of 64 bits are found.
pub dec_digits-Digits :
    (fuel n : ℕ) → 20 < fuel → n < 2 ^ 64 → Digits (48 ∷ []) n 20 [] (dec_digits fuel n)
unfolding dec_digits
dec_digits-Digits fuel n lt small = elim (Bool-cases (n == 0)) [
  | inl e ↦
      let z : n ≡ 0 = ground arith in
      rw e (record {
        digits = 48 ∷ [];
        output = refl;
        worth = sym z;
        all = ground arith;
        count = omega arith;
        lead = subst (λ m. IsLed (48 ∷ []) m (48 ∷ [])) (sym z) refl;
      })
  | inr e ↦
      let ds = dec_loop-Digits fuel 20 n [] lt (omega arith) (omega arith) in
      rw e (record {
        digits = ds.digits;
        output = ds.output;
        worth = ds.worth;
        all = ds.all;
        count = ds.count;
        lead = IsLed-weaken [] (48 ∷ []) n ds.digits (ground arith) ds.lead;
      })
]
