-- ===== src/Store/Usage/Totals.antt =====
-- The buckets of a project's usage leave nothing out and count nothing twice.
use nice_agent.Prelude.{
  ℕ, ◌+◌, String, true, ◌≡◌, refl, ◌∙◌, List, [], ◌∷◌, Map, lookup, put, value_or, total,
  total-sort_by, arith, All,
}
use nice_agent.Protocol.Run.{RunUsage}
use nice_agent.Protocol.Policy.{RunUsageBucket}
use nice_agent.Store.{Store}
use nice_agent.Store.Usage.{
  usages_since, empty_bucket, add_usage_to_bucket, put_usage, buckets_by_key, buckets_of,
  bucket_before, list_run_usage_buckets_since, usage_bucket_key,
}

-- A counter of a bucket that grows with each usage by what `g` reads of it.
pub record IsCounter (f : RunUsageBucket → ℕ) (g : RunUsage → ℕ) : Type 0 where
  pub empty : (usage : RunUsage) → f (empty_bucket usage) ≡ 0
  pub grows :
      (bucket : RunUsageBucket) (usage : RunUsage)
      → f (add_usage_to_bucket bucket usage) ≡ f bucket + g usage

module _ (f : RunUsageBucket → ℕ) where
  -- A bucket in place of another one.
  total-put :
      (key : String) (d new : RunUsageBucket) (buckets : Map RunUsageBucket)
      → f d ≡ 0
      → total f (buckets_of (put key new buckets)) + f (value_or d (lookup key buckets))
        ≡ total f (buckets_of buckets) + f new
  unfolding put lookup
  total-put key d new [] q = omega (arith, q)
  total-put key d new ((j, b) ∷ buckets) q = ground (arith, total-put key d new buckets q)

  total-buckets_by_key :
      {g : RunUsage → ℕ} (buckets : Map RunUsageBucket) (usages : List RunUsage)
      → IsCounter f g
      → total f (buckets_of (buckets_by_key buckets usages))
        ≡ total f (buckets_of buckets) + total g usages
  unfolding buckets_by_key put_usage
  total-buckets_by_key buckets [] c = omega arith
  total-buckets_by_key {g} buckets (usage ∷ usages) c =
      let key = usage_bucket_key usage in
      let old = value_or (empty_bucket usage) (lookup key buckets) in
      omega (
        arith,
        total-buckets_by_key {g = g} (put_usage usage buckets) usages c,
        total-put key (empty_bucket usage) (add_usage_to_bucket old usage) buckets (c.empty usage),
        c.grows old usage,
      )

total_lem :
    (f : RunUsageBucket → ℕ) (g : RunUsage → ℕ) (project_id : String) (since : ℕ) (s : Store)
    → IsCounter f g
    → total f (list_run_usage_buckets_since project_id since s)
      ≡ total g (usages_since (λ run. true) project_id since s.run_usage s)
unfolding list_run_usage_buckets_since
total_lem f g project_id since s c =
    let usages = usages_since (λ run. true) project_id since s.run_usage s in
    total-sort_by f bucket_before (buckets_of (buckets_by_key [] usages))
    ∙ total-buckets_by_key f {g = g} [] usages c
    ∙ omega arith

-- What a bucket counts, and what a usage adds to it. The cost, which the code adds as a float, and the
-- largest memory of a sandbox are not among them.
abbrev pub counters : List ((RunUsageBucket → ℕ) × (RunUsage → ℕ))
counters =
    (λ b. b.run_count, λ u. 1)
    ∷ (λ b. b.input_tokens, λ u. u.input_tokens)
    ∷ (λ b. b.output_tokens, λ u. u.output_tokens)
    ∷ (λ b. b.reasoning_tokens, λ u. u.reasoning_tokens)
    ∷ (λ b. b.cached_tokens, λ u. u.cached_tokens)
    ∷ (λ b. b.total_tokens, λ u. u.total_tokens)
    ∷ (λ b. b.latency_millis, λ u. u.latency_millis)
    ∷ (λ b. b.retry_count, λ u. u.retry_count)
    ∷ (λ b. b.tool_calls, λ u. u.tool_calls)
    ∷ (λ b. b.tool_errors, λ u. u.tool_errors)
    ∷ (λ b. b.sandbox_commands, λ u. u.sandbox_commands)
    ∷ (λ b. b.sandbox_duration_millis, λ u. u.sandbox_duration_millis)
    ∷ (λ b. b.sandbox_output_bytes, λ u. u.sandbox_output_bytes)
    ∷ (λ b. b.sandbox_cpu_millis, λ u. u.sandbox_cpu_millis)
    ∷ (λ b. b.artifact_count, λ u. u.artifact_count)
    ∷ (λ b. b.artifact_bytes, λ u. u.artifact_bytes)
    ∷ []

counters-IsCounter : All (λ c. IsCounter c.0 c.1) counters
unfolding empty_bucket add_usage_to_bucket
counters-IsCounter = (
  record { empty = λ u. refl; grows = λ b u. refl },
  (
    record { empty = λ u. refl; grows = λ b u. refl },
    (
      record { empty = λ u. refl; grows = λ b u. refl },
      (
        record { empty = λ u. refl; grows = λ b u. refl },
        (
          record { empty = λ u. refl; grows = λ b u. refl },
          (
            record { empty = λ u. refl; grows = λ b u. refl },
            (
              record { empty = λ u. refl; grows = λ b u. refl },
              (
                record { empty = λ u. refl; grows = λ b u. refl },
                (
                  record { empty = λ u. refl; grows = λ b u. refl },
                  (
                    record { empty = λ u. refl; grows = λ b u. refl },
                    (
                      record { empty = λ u. refl; grows = λ b u. refl },
                      (
                        record { empty = λ u. refl; grows = λ b u. refl },
                        (
                          record { empty = λ u. refl; grows = λ b u. refl },
                          (
                            record { empty = λ u. refl; grows = λ b u. refl },
                            (
                              record { empty = λ u. refl; grows = λ b u. refl },
                              (record { empty = λ u. refl; grows = λ b u. refl }, tt),
                            ),
                          ),
                        ),
                      ),
                    ),
                  ),
                ),
              ),
            ),
          ),
        ),
      ),
    ),
  ),
)

total-All :
    (project_id : String) (since : ℕ) (s : Store)
    (cs : List ((RunUsageBucket → ℕ) × (RunUsage → ℕ)))
    → All (λ c. IsCounter c.0 c.1) cs
    → All
        (λ c.
          total c.0 (list_run_usage_buckets_since project_id since s)
          ≡ total c.1 (usages_since (λ run. true) project_id since s.run_usage s))
        cs
total-All project_id since s [] h = tt
total-All project_id since s (c ∷ cs) (h, hs) =
    (total_lem c.0 c.1 project_id since s h, total-All project_id since s cs hs)

-- Over all buckets of a project, the runs, the tokens of each kind, the latency, the retries, the tool
-- calls and their errors, the commands, time, output and processor time of the sandbox, and the number
-- and size of the artifacts each add up to their sum over the usages that the project has had since
-- then: no run is left out, and none is counted in two buckets.
pub total-list_run_usage_buckets :
    (project_id : String) (since : ℕ) (s : Store)
    → All
        (λ c.
          total c.0 (list_run_usage_buckets_since project_id since s)
          ≡ total c.1 (usages_since (λ run. true) project_id since s.run_usage s))
        counters
total-list_run_usage_buckets project_id since s =
    total-All project_id since s counters counters-IsCounter
