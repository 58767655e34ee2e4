-- ===== src/Pool/Init.antt =====
-- `workqueue_init` and `threadpool_init` of 2.3.1-coroutine/server_mulport_epoll.c. Each turn of the
-- loop asks for memory and for a thread; `allocated` and `created` say whether the i-th request is
-- met. A worker is named by its turn.
use native.Mathlib.Decide.{dec_lt}
use test_linux.Base.{
  ℕ, zero, suc, ◌+◌, ◌<◌, ◌≡◌, refl, ◌⊎◌, inl, inr, Bool, Bool-cases, true, false, List, [], ◌∷◌, ℤ,
  pos, negsuc, arith, ltb, if◌then◌else◌,
}

abbrev pub max_thread : ℕ
max_thread = 80

-- `if (numWorkers < 1) numWorkers = 1;`
unfoldable pub clamp_workers : ℤ → ℕ
clamp_workers (pos n) = if ltb n 1 then 1 else n
clamp_workers (negsuc n) = 1

module _ (allocated created : ℕ → Bool) where
  -- `rounds` turns from the i-th on; the result is what is returned, and `workqueue->workers`, to
  -- which LL_ADD puts the newest worker first.
  unfoldable pub init_loop : (rounds i : ℕ) → List ℕ → ℕ × List ℕ
  init_loop zero i workers = (0, workers)
  init_loop (suc rounds) i workers = elim (allocated i) [
    | false ↦ (1, workers)
    | true ↦ elim (created i) [
      | false ↦ (1, workers)
      | true ↦ init_loop rounds (suc i) (i ∷ workers)
    ]
  ]

  unfoldable pub workqueue_init : ℤ → ℕ × List ℕ
  unfolding init_loop clamp_workers
  workqueue_init n = init_loop (clamp_workers n) 0 []

  unfoldable pub threadpool_init : List ℕ
  unfolding workqueue_init
  threadpool_init = (workqueue_init (pos max_thread)).1

  -- The workers numbered below `n`, the newest first.
  abbrev pub newest_first : ℕ → List ℕ
  newest_first zero = []
  newest_first (suc n) = n ∷ newest_first n

  -- How an attempt to start `total` workers ends.
  pub record Started (total : ℕ) (r : ℕ × List ℕ) : Type 0 where
    pub count : ℕ
    pub workers : r.1 ≡ newest_first count
    pub all_met : (i : ℕ) → i < count → (allocated i ≡ true) × (created i ≡ true)
    pub result :
        (r.0 ≡ 0) × (count ≡ total)
        ⊎ (r.0 ≡ 1) × (count < total) × ((allocated count ≡ false) ⊎ (created count ≡ false))

  AllMet : ℕ → Type 0
  AllMet n = (i : ℕ) → i < n → (allocated i ≡ true) × (created i ≡ true)

  AllMet-suc : (n : ℕ) → AllMet n → allocated n ≡ true → created n ≡ true → AllMet (suc n)
  unfolding AllMet
  AllMet-suc n met a c i h = elim (dec_lt i n) [
    | yes below ↦ met i below
    | no last ↦ let e : i ≡ n = omega arith in rw e (a, c)
  ]

  init_loop-Started :
      (rounds i total : ℕ)
      → total ≡ i + rounds
      → AllMet i
      → Started total (init_loop rounds i (newest_first i))
  unfolding init_loop AllMet
  init_loop-Started zero i total e met = record {
    count = i;
    workers = refl;
    all_met = met;
    result = inl (refl, omega arith);
  }
  init_loop-Started (suc rounds) i total e met = elim (Bool-cases (allocated i)) [
    | inl got ↦ elim (Bool-cases (created i)) [
      | inl run ↦
          rw (got, init_loop, run)
            (init_loop-Started rounds (suc i) total (omega arith) (AllMet-suc i met got run))
      | inr failed ↦
          rw (got, init_loop, failed)
            (record {
              count = i;
              workers = refl;
              all_met = met;
              result = inr (refl, omega arith, inr failed);
            })
    ]
    | inr failed ↦
        rw (failed, init_loop)
          (record {
            count = i;
            workers = refl;
            all_met = met;
            result = inr (refl, omega arith, inl failed);
          })
  ]

  -- `workqueue_init` starts workers in turn until a request fails. It returns 0 exactly when it has
  -- started all that were asked for, at least one, and 1 at the first memory or thread that is
  -- refused; the workers started before that stay in the list, the newest first.
  pub workqueue_init-Started : (n : ℤ) → Started (clamp_workers n) (workqueue_init n)
  unfolding workqueue_init AllMet
  workqueue_init-Started n =
      init_loop-Started (clamp_workers n) 0 (clamp_workers n) (omega arith) (λ i h. elim h [ ])
