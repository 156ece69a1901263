-- ===== src/ReadyQueue/Busiest.antt =====
-- The choice of the processor that `readyQueuePop` takes a thread from.
use mirai_os.Prelude.{
  ℕ, zero, suc, ◌+◌, ◌≤◌, ◌<◌, ◌==◌, ltb, ◌≡◌, ◌≢◌, refl, ◌&&◌, Option, none, some, arith,
  Bool-cases, inl, inr,
}
use mirai_os.Thread.{CpuInfo}
use mirai_os.ReadyQueue.{busier, busiest_loop}

-- `b` is one of the first `k` processors, is not `this`, and has ready threads and the load `l`.
abbrev pub IsCandidate : (this k : ℕ) → (ℕ → CpuInfo) → Option ℕ → ℕ → Type 0
IsCandidate this k cpus none l = l ≡ 0
IsCandidate this k cpus (some b) l =
    (b < k) × (b ≢ this) × (0 < (cpus b).nrof_ready_threads) × ((cpus b).thread_load ≡ l) × (0 < l)

-- None of the first `k` processors but `this` that have ready threads has a load above `l`.
abbrev pub IsMost : (this k : ℕ) → (ℕ → CpuInfo) → ℕ → Type 0
IsMost this k cpus l =
    (j : ℕ) → j < k → j ≢ this → 0 < (cpus j).nrof_ready_threads → (cpus j).thread_load ≤ l

IsCandidate-suc :
    (this k : ℕ) (cpus : ℕ → CpuInfo) (o : Option ℕ) (l : ℕ)
    → IsCandidate this k cpus o l
    → IsCandidate this (k + 1) cpus o l
IsCandidate-suc this k cpus none l h = h
IsCandidate-suc this k cpus (some b) l h = ground arith

busier-IsCandidate :
    (this k : ℕ) (cpus : ℕ → CpuInfo) (o : Option ℕ) (l : ℕ)
    → IsCandidate this k cpus o l
    → let acc = busier this k (cpus k) (o, l) in IsCandidate this (k + 1) cpus acc.0 acc.1
unfolding busier
busier-IsCandidate this k cpus o l h =
    let kept = IsCandidate-suc this k cpus o l h in
    elim (Bool-cases (k == this)) [
      | inl e ↦ rw e kept
      | inr e ↦
          elim (Bool-cases (ltb 0 (cpus k).nrof_ready_threads && ltb l (cpus k).thread_load)) [
            | inl e' ↦ rw (e, e') (ground arith)
            | inr e' ↦ rw (e, e') kept
          ]
    ]

busier-IsMost :
    (this k : ℕ) (cpus : ℕ → CpuInfo) (b : Option ℕ) (l : ℕ)
    → IsMost this k cpus l
    → IsMost this (k + 1) cpus (busier this k (cpus k) (b, l)).1
unfolding busier
busier-IsMost this k cpus b l h j lt ne ready = ground (arith, h j)

busiest_loop-best :
    (n i all this : ℕ) (cpus : ℕ → CpuInfo) (o : Option ℕ) (l : ℕ)
    → i + n ≡ all
    → IsCandidate this i cpus o l
    → IsMost this i cpus l
    → let acc = busiest_loop n i this cpus (o, l) in
      IsCandidate this all cpus acc.0 acc.1 × IsMost this all cpus acc.1
unfolding busiest_loop
busiest_loop-best zero i all this cpus o l e h most =
    let same : i ≡ all = omega arith in rw (← same) (h, most)
busiest_loop-best (suc n) i all this cpus o l e h most =
    let acc = busier this i (cpus i) (o, l) in
    busiest_loop-best n (i + 1) all this cpus acc.0 acc.1 (omega arith)
      (busier-IsCandidate this i cpus o l h) (busier-IsMost this i cpus o l most)

-- The search of `readyQueuePop` over `nrof_cpus` processors ends with a processor other than its
-- own that has ready threads and a load above 0 (the one reported), or with none and the load 0; no
-- other processor with ready threads has more load.
pub busiest_loop-best_of_all :
    (nrof_cpus this : ℕ) (cpus : ℕ → CpuInfo)
    → let acc = busiest_loop nrof_cpus 0 this cpus (none, 0) in
      IsCandidate this nrof_cpus cpus acc.0 acc.1 × IsMost this nrof_cpus cpus acc.1
busiest_loop-best_of_all nrof_cpus this cpus =
    busiest_loop-best nrof_cpus 0 nrof_cpus this cpus none 0 (omega arith) refl
      (λ j lt ne ready. absurd (omega arith))
