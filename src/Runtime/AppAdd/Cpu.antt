-- ===== src/Runtime/AppAdd/Cpu.antt =====
-- rktlet/runtime/helpers.go: CPU shares and quotas as thousandths of a core, in int64.
use rktlet.Base.{
  ℕ, ◌≡◌, refl, ◌*◌, ◌/◌, ◌<◌, ◌^◌, Bool, true, false, ◌||◌, ◌==◌, nat_eq, if◌then◌else◌, arith,
  Bool-cases, inl, inr, ap,
}
use rktlet.Base.Int.{ℤ, pos, negsuc, mul64, div64}
use rktlet.Base.Int.Laws.{mul64-pos, div64-pos}

abbrev is_zero : ℤ → Bool
is_zero (pos n) = n == 0
is_zero (negsuc n) = false

-- cpuSharesToMilliCores
unfoldable pub cpu_shares_to_milli_cores : ℤ → ℤ
cpu_shares_to_milli_cores cpushare = div64 (mul64 cpushare (pos 1000)) (pos 1024)

-- cpuQuotaToMilliCores
unfoldable pub cpu_quota_to_milli_cores : ℤ → ℤ → ℤ
cpu_quota_to_milli_cores cpu_quota cpu_period =
    if is_zero cpu_quota || is_zero cpu_period
    then pos 0
    else div64 (mul64 cpu_quota (pos 1000)) cpu_period

-- The thousandths of a core of a quota and a period that are not negative, where the quota times
-- 1000 is an int64, are their quotient times 1000 rounded down, and 0 without a quota or a period.
pub cpu_quota_to_milli_cores_lem :
    (quota period : ℕ)
    → quota * 1000 < 2 ^ 63
    → cpu_quota_to_milli_cores (pos quota) (pos period) ≡ pos (quota * 1000 / period)
unfolding cpu_quota_to_milli_cores
cpu_quota_to_milli_cores_lem quota period h =
    rw (mul64-pos quota 1000 h, div64-pos (quota * 1000) period h)
      (elim (Bool-cases (quota == 0 || period == 0)) [
        | inl nothing ↦ rw nothing (ap pos (nothing_lem nothing))
        | inr some_quota ↦ rw some_quota refl
      ])
  where
    nothing_lem : (quota == 0 || period == 0) ≡ true → 0 ≡ quota * 1000 / period
    nothing_lem e = ground arith
