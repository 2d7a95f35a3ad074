-- ===== src/Dag/Pool.antt =====
-- crates/scheduler/src/dag.rs, `ResourceConfig` and `ResourcePool`. The `u32` sums wrap; see
-- `ResourceAllocation` for the unit of `cpu`.
use knitting_crab.Prelude.{ℕ, ◌+◌, ◌-◌, ◌%◌, ◌≤◌, ◌<◌, ◌≡◌, Bool, true, ◌&&◌, leb, u32_mod, arith}
use knitting_crab.Core.Task.{ResourceAllocation}

pub record ResourceConfig : Type 0 where
  pub max_cpu_cores : ℕ
  pub max_memory_mb : ℕ
  pub max_gpu_cores : ℕ

pub record ResourcePool : Type 0 where
  pub config : ResourceConfig
  pub used_cpu : ℕ
  pub used_memory_mb : ℕ
  pub used_gpu_cores : ℕ

unfoldable pub new_pool : ResourceConfig → ResourcePool
new_pool config = record { config = config; used_cpu = 0; used_memory_mb = 0; used_gpu_cores = 0 }

unfoldable pub can_fit : ResourcePool → ResourceAllocation → Bool
can_fit p req =
    leb (p.used_cpu + req.cpu_cores) p.config.max_cpu_cores
    && (leb ((p.used_memory_mb + req.memory_mb) % u32_mod) p.config.max_memory_mb
        && leb ((p.used_gpu_cores + req.gpu_cores) % u32_mod) p.config.max_gpu_cores)

unfoldable pub allocate : ResourcePool → ResourceAllocation → ResourcePool
allocate p req = record p {
  used_cpu = p.used_cpu + req.cpu_cores;
  used_memory_mb = (p.used_memory_mb + req.memory_mb) % u32_mod;
  used_gpu_cores = (p.used_gpu_cores + req.gpu_cores) % u32_mod;
}

-- `max(0.0)` and `saturating_sub` stop at 0, as `-` does.
unfoldable pub release : ResourcePool → ResourceAllocation → ResourcePool
release p req = record p {
  used_cpu = p.used_cpu - req.cpu_cores;
  used_memory_mb = p.used_memory_mb - req.memory_mb;
  used_gpu_cores = p.used_gpu_cores - req.gpu_cores;
}

-- No use exceeds its limit.
pub record IsWithin (p : ResourcePool) : Type 0 where
  pub cpu : p.used_cpu ≤ p.config.max_cpu_cores
  pub memory : p.used_memory_mb ≤ p.config.max_memory_mb
  pub gpu : p.used_gpu_cores ≤ p.config.max_gpu_cores

pub new_pool-IsWithin : (c : ResourceConfig) → IsWithin (new_pool c)
unfolding new_pool
new_pool-IsWithin c = omega arith

pub allocate-IsWithin :
    (p : ResourcePool) (req : ResourceAllocation) → can_fit p req ≡ true → IsWithin (allocate p req)
unfolding can_fit allocate
allocate-IsWithin p req h = ground arith

pub release-IsWithin :
    (p : ResourcePool) (req : ResourceAllocation) → IsWithin p → IsWithin (release p req)
unfolding release
release-IsWithin p req h = omega arith

-- Without a wrap, releasing what was allocated restores the pool.
pub release-allocate :
    (p : ResourcePool) (req : ResourceAllocation)
    → p.used_memory_mb + req.memory_mb < u32_mod
    → p.used_gpu_cores + req.gpu_cores < u32_mod
    → release (allocate p req) req ≡ p
unfolding release allocate
release-allocate p req h k = ground arith
