-- ===== src/ReadyQueue/Choose.antt =====
-- The processor that `readyQueuePush` chooses.
use mirai_os.Prelude.{
  ℕ, zero, suc, ◌+◌, ◌<◌, ◌==◌, ◌≡◌, ◌≢◌, refl, Bool, true, false, ◌&&◌, Option, none, some, arith,
  inl, inr, Bool-cases,
}
use mirai_os.Thread.{CpuInfo}
use mirai_os.ReadyQueue.{find_idle, choose_cpu}

-- An active processor without load.
abbrev pub is_idle : CpuInfo → Bool
is_idle info = info.active && (info.thread_load == 0)

-- The first of the processors `k`, .., `k + n - 1` that is idle, if there is one.
abbrev pub IsFirstIdle : (k n : ℕ) → (ℕ → CpuInfo) → Option ℕ → Type 0
IsFirstIdle k n cpus none = (j : ℕ) → k < j + 1 → j < k + n → is_idle (cpus j) ≡ false
IsFirstIdle k n cpus (some i) =
    (k < i + 1)
    × (i < k + n)
    × (is_idle (cpus i) ≡ true)
    × ((j : ℕ) → k < j + 1 → j < i → is_idle (cpus j) ≡ false)

IsFirstIdle-suc :
    (k n : ℕ) (cpus : ℕ → CpuInfo) (o : Option ℕ)
    → is_idle (cpus k) ≡ false
    → IsFirstIdle (k + 1) n cpus o
    → IsFirstIdle k (suc n) cpus o
IsFirstIdle-suc k n cpus none busy h = λ j le lt. elim (Bool-cases (j == k)) [
  | inl e ↦ let same : j ≡ k = ground arith in rw same busy
  | inr e ↦ h j (ground arith) (omega arith)
]
IsFirstIdle-suc k n cpus (some i) busy h = (
  omega (arith, h.0),
  omega (arith, h.1),
  h.2,
  λ j le lt. elim (Bool-cases (j == k)) [
    | inl e ↦ let same : j ≡ k = ground arith in rw same busy
    | inr e ↦ h.3 j (ground arith) lt
  ],
)

find_idle-IsFirstIdle : (n k : ℕ) (cpus : ℕ → CpuInfo) → IsFirstIdle k n cpus (find_idle n k cpus)
unfolding find_idle
find_idle-IsFirstIdle zero k cpus = λ j le lt. absurd (omega arith)
find_idle-IsFirstIdle (suc n) k cpus = elim (Bool-cases (is_idle (cpus k))) [
  | inl e ↦ rw e (omega arith, omega arith, e, λ j le lt. absurd (omega arith))
  | inr e ↦
      rw e (
        IsFirstIdle-suc k n cpus (find_idle n (k + 1) cpus) e
          (find_idle-IsFirstIdle n (k + 1) cpus))
]

-- What `readyQueuePush` chooses for a thread of the processor `affinity`.
pub record Choice (nrof_cpus affinity : ℕ) (cpus : ℕ → CpuInfo) (cpu : ℕ) : Type 0 where
  pub unloaded : (cpus affinity).thread_load ≡ 0 → cpu ≡ affinity
  pub moved : cpu ≢ affinity → (cpu < nrof_cpus) × (is_idle (cpus cpu) ≡ true)
  pub found :
      (j : ℕ)
      → (cpus affinity).thread_load ≢ 0
      → j < nrof_cpus
      → is_idle (cpus j) ≡ true
      → (cpu < j + 1) × (is_idle (cpus cpu) ≡ true)

Choice-from :
    (nrof_cpus affinity : ℕ) (cpus : ℕ → CpuInfo) (o : Option ℕ)
    → IsFirstIdle 0 nrof_cpus cpus o
    → (cpus affinity).thread_load ≢ 0
    → Choice nrof_cpus affinity cpus (elim o [ none ↦ affinity | some i ↦ i ])
Choice-from nrof_cpus affinity cpus none h ne = record {
  unloaded = λ e. refl;
  moved = λ away. absurd (away refl);
  found = λ j loaded lt idle. ground (arith, h j);
}
Choice-from nrof_cpus affinity cpus (some i) h ne = record {
  unloaded = λ e. absurd (ne e);
  moved = λ away. (omega (arith, h.1), h.2);
  found = λ j loaded lt idle. (ground (arith, h.3 j), h.2);
}

-- The processor for a thread is its own one where this has no load; otherwise the first active one
-- without load if there is one, and else its own one.
pub choose_cpu-Choice :
    (nrof_cpus affinity : ℕ) (cpus : ℕ → CpuInfo)
    → Choice nrof_cpus affinity cpus (choose_cpu nrof_cpus affinity cpus)
unfolding choose_cpu
choose_cpu-Choice nrof_cpus affinity cpus = elim (Bool-cases ((cpus affinity).thread_load == 0)) [
  | inl e ↦ rw e (record {
    unloaded = λ z. refl;
    moved = λ away. absurd (away refl);
    found = λ j loaded lt idle. absurd (ground arith);
  })
  | inr e ↦ rw e (
      Choice-from nrof_cpus affinity cpus (find_idle nrof_cpus 0 cpus)
        (find_idle-IsFirstIdle nrof_cpus 0 cpus) (ground arith))
]
