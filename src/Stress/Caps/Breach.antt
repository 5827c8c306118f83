-- ===== src/Stress/Caps/Breach.antt =====
-- Where each cap comes from, and when a cap is breached.
use protostar.Base.{
  ℕ, ◌+◌, ◌*◌, ◌≤◌, ◌<◌, ◌≡◌, refl, ◌↔◌, ◌⊎◌, inl, inr, String, true, false, Option, none, some,
  arith, or_else, ltb, Bool-cases,
}
use protostar.Stress.Caps.{
  StressCapShape, sustained_load, concurrency, fault_injection, ttt_delivery, run_count, wall_clock,
  StressCapSource, cli, factory_stress_caps, q03_default, at_shape, ResolvedStressCaps,
  StressCapBreach, ResolveStressCapsInput, q03_stress_cap_defaults, resolve_number, cli_cap,
  config_cap, resolve_stress_caps, run_count_limit, wall_clock_limit_days, days_begun,
  wall_clock_days, wall_clock_breach, detect_stress_cap_breach,
}

-- The command line's value goes before the configuration's, and that before the default.
pub data IsResolved : (cli config : Option ℕ) (fallback : ℕ) → ℕ × StressCapSource → Type 0 where
  by_cli : (v : ℕ) (c : Option ℕ) (d : ℕ) → IsResolved (some v) c d (v, cli)
  by_config : (v d : ℕ) → IsResolved none (some v) d (v, factory_stress_caps)
  by_default : (d : ℕ) → IsResolved none none d (d, q03_default)

resolve_number-IsResolved : (c f : Option ℕ) (d : ℕ) → IsResolved c f d (resolve_number c f d)
unfolding resolve_number
resolve_number-IsResolved (some v) f d = by_cli v f d
resolve_number-IsResolved none (some v) d = by_config v d
resolve_number-IsResolved none none d = by_default d

-- Both caps of every shape, with the sources that are reported for them, come from the command line
-- where it gives the cap, else from the configuration where there is one, else from the default.
pub resolve_stress_caps-IsResolved :
    (input : ResolveStressCapsInput) (shape : StressCapShape)
    → let r = resolve_stress_caps input in
      IsResolved
        (cli_cap (λ p. p.max_count) input shape)
        (config_cap (λ c. c.max_count) input shape)
        (at_shape q03_stress_cap_defaults shape).max_count
        (run_count_limit r shape, (at_shape r.sources shape).max_count)
      × IsResolved
          (cli_cap (λ p. p.max_wall_clock_days) input shape)
          (config_cap (λ c. c.max_wall_clock_days) input shape)
          (at_shape q03_stress_cap_defaults shape).max_wall_clock_days
          (wall_clock_limit_days r shape, (at_shape r.sources shape).max_wall_clock_days)
unfolding resolve_stress_caps
resolve_stress_caps-IsResolved input sustained_load =
    (resolve_number-IsResolved _ _ _, resolve_number-IsResolved _ _ _)
resolve_stress_caps-IsResolved input concurrency =
    (resolve_number-IsResolved _ _ _, resolve_number-IsResolved _ _ _)
resolve_stress_caps-IsResolved input fault_injection =
    (resolve_number-IsResolved _ _ _, resolve_number-IsResolved _ _ _)
resolve_stress_caps-IsResolved input ttt_delivery =
    (resolve_number-IsResolved _ _ _, resolve_number-IsResolved _ _ _)

-- The time allowed has passed: both times parse, and the later is more than `days` days on.
abbrev pub IsLate : (started_at now : Option ℕ) → (days : ℕ) → Type 0
IsLate (some s) (some n) days = s + days * 86400000 < n
IsLate _ _ days = ⊥

days_begun-late : (s n days : ℕ) → (days < days_begun s n) ↔ (s + days * 86400000 < n)
unfolding days_begun
days_begun-late s n days = (λ h. omega arith, λ h. omega arith)

-- What a breach says is so.
abbrev pub IsBreach :
    (count : ℕ) (started_at now : Option ℕ)
    → ResolvedStressCaps
    → StressCapShape
    → Option StressCapBreach
    → Type 0
IsBreach count s n caps shape none =
    (count ≤ run_count_limit caps shape) × ¬ IsLate s n (wall_clock_limit_days caps shape)
IsBreach count s n caps shape (some b) =
    (b.shape ≡ shape)
    × (b.limit < b.value)
    × (((b.kind ≡ run_count) × (b.value ≡ count) × (b.limit ≡ run_count_limit caps shape))
        ⊎ ((b.kind ≡ wall_clock)
            × (count ≤ run_count_limit caps shape)
            × IsLate s n (wall_clock_limit_days caps shape)
            × (b.limit ≡ wall_clock_limit_days caps shape)))

ltb-lt : (a b : ℕ) → ltb a b ≡ true → a < b
ltb-lt a b h = ground arith

ltb-le : (a b : ℕ) → ltb a b ≡ false → b ≤ a
ltb-le a b h = ground arith

ltb-ne : (a b : ℕ) → ltb a b ≡ false → ¬ (a < b)
ltb-ne a b h k = absurd (ground arith)

wall_clock_breach-IsBreach :
    (count : ℕ) (s n : Option ℕ) (caps : ResolvedStressCaps) (shape : StressCapShape)
    → count ≤ run_count_limit caps shape
    → IsBreach count s n caps shape
        (wall_clock_breach shape (wall_clock_limit_days caps shape) (wall_clock_days s n))
unfolding wall_clock_days
wall_clock_breach-IsBreach count none n caps shape within = (within, λ e. e)
wall_clock_breach-IsBreach count (some s) none caps shape within = (within, λ e. e)
wall_clock_breach-IsBreach count (some s) (some n) caps shape within =
    let limit = wall_clock_limit_days caps shape in
    let late = days_begun-late s n limit in
    elim (Bool-cases (ltb limit (days_begun s n))) [
      | inl over ↦ rw over (
        refl,
        ltb-lt limit (days_begun s n) over,
        inr (refl, within, late.0 (ltb-lt limit (days_begun s n) over), refl),
      )
      | inr under ↦ rw under (within, λ h. ltb-ne limit (days_begun s n) under (late.1 h))
    ]

-- No breach is reported exactly when the count is within its cap and the wall-clock time has not
-- passed; a breach that is reported is one of the shape asked for, its value is above its limit, and
-- it is the count's breach, or the clock's where the count is within its cap.
pub detect_stress_cap_breach-IsBreach :
    (parse : String → Option ℕ) (clock : String) (shape : StressCapShape) (count : ℕ)
    (started_at : String) (now : Option String) (caps : ResolvedStressCaps)
    → IsBreach count
        (parse started_at)
        (parse (or_else now clock))
        caps
        shape
        (detect_stress_cap_breach parse clock shape count started_at now caps)
unfolding detect_stress_cap_breach
detect_stress_cap_breach-IsBreach parse clock shape count started_at now caps =
    let limit = run_count_limit caps shape in
    elim (Bool-cases (ltb limit count)) [
      | inl over ↦
          rw (over, detect_stress_cap_breach)
            (refl, ltb-lt limit count over, inl (refl, refl, refl))
      | inr under ↦
          rw (under, detect_stress_cap_breach)
            (wall_clock_breach-IsBreach count (parse started_at) (parse (or_else now clock)) caps
              shape (ltb-le limit count under))
    ]
