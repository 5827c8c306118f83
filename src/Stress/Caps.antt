-- ===== src/Stress/Caps.antt =====
-- apps/factory-cli/src/stress/stress-caps.ts: the caps of a stress session and their breach. Caps are
-- whole numbers, as the configuration's schema and the command line ask for. The two caps of a
-- shape are one record: `max_count` is maxRuns, maxSessions, maxFaults or maxAttempts.
pub mod Breach
use protostar.Base.{
  ℕ, ◌+◌, ◌-◌, ◌*◌, ◌/◌, String, Bool, true, false, Option, none, some, or_else, ltb, if◌then◌else◌,
}

pub data StressCapShape : Type 0 where
  sustained_load concurrency fault_injection ttt_delivery : StressCapShape

pub data StressCapKind : Type 0 where
  run_count wall_clock : StressCapKind

pub data StressCapSource : Type 0 where
  cli factory_stress_caps q03_default : StressCapSource

pub record ShapeCaps : Type 0 where
  pub max_count : ℕ
  pub max_wall_clock_days : ℕ

-- A value for each of the four shapes.
pub record PerShape (A : Type 0) : Type 0 where
  pub sustained_load : A
  pub concurrency : A
  pub fault_injection : A
  pub ttt_delivery : A

abbrev pub at_shape : {A : Type 0} → PerShape A → StressCapShape → A
at_shape p sustained_load = p.sustained_load
at_shape p concurrency = p.concurrency
at_shape p fault_injection = p.fault_injection
at_shape p ttt_delivery = p.ttt_delivery

abbrev pub FactoryStressCapsConfig : Type 0
FactoryStressCapsConfig = PerShape ShapeCaps

-- What the command line gives for a shape.
pub record PartialCaps : Type 0 where
  pub max_count : Option ℕ
  pub max_wall_clock_days : Option ℕ

pub record ShapeSources : Type 0 where
  pub max_count : StressCapSource
  pub max_wall_clock_days : StressCapSource

pub record ResolvedStressCaps : Type 0 where
  pub caps : PerShape ShapeCaps
  pub sources : PerShape ShapeSources

pub record StressCapBreach : Type 0 where
  pub kind : StressCapKind
  pub value : ℕ
  pub limit : ℕ
  pub shape : StressCapShape

pub record ResolveStressCapsInput : Type 0 where
  pub cli : Option (PerShape (Option PartialCaps))
  pub config : Option FactoryStressCapsConfig

abbrev pub q03_stress_cap_defaults : PerShape ShapeCaps
q03_stress_cap_defaults = record {
  sustained_load = record { max_count = 500; max_wall_clock_days = 7 };
  concurrency = record { max_count = 20; max_wall_clock_days = 3 };
  fault_injection = record { max_count = 100; max_wall_clock_days = 3 };
  ttt_delivery = record { max_count = 50; max_wall_clock_days = 14 };
}

unfoldable pub resolve_number : (cli config : Option ℕ) (fallback : ℕ) → ℕ × StressCapSource
resolve_number (some v) config fallback = (v, cli)
resolve_number none (some v) fallback = (v, factory_stress_caps)
resolve_number none none fallback = (fallback, q03_default)

abbrev and_get : {A B : Type 0} → Option A → (A → Option B) → Option B
and_get none f = none
and_get (some a) f = f a

-- The command line's value for a cap: `input.cli?.[shape]?.maxRuns` and its like.
abbrev pub cli_cap : (PartialCaps → Option ℕ) → ResolveStressCapsInput → StressCapShape → Option ℕ
cli_cap field input shape = and_get (and_get input.cli (λ p. at_shape p shape)) field

-- The configuration's: `input.config?.sustainedLoad.maxRuns` and its like.
abbrev pub config_cap : (ShapeCaps → ℕ) → ResolveStressCapsInput → StressCapShape → Option ℕ
config_cap field input shape = and_get input.config (λ c. some (field (at_shape c shape)))

abbrev resolved_count : ResolveStressCapsInput → StressCapShape → ℕ × StressCapSource
resolved_count input shape =
    resolve_number (cli_cap (λ p. p.max_count) input shape)
      (config_cap (λ c. c.max_count) input shape) (at_shape q03_stress_cap_defaults shape).max_count

abbrev resolved_days : ResolveStressCapsInput → StressCapShape → ℕ × StressCapSource
resolved_days input shape =
    resolve_number (cli_cap (λ p. p.max_wall_clock_days) input shape)
      (config_cap (λ c. c.max_wall_clock_days) input shape)
      (at_shape q03_stress_cap_defaults shape).max_wall_clock_days

abbrev caps_of : ResolveStressCapsInput → StressCapShape → ShapeCaps
caps_of input shape = record {
  max_count = (resolved_count input shape).0;
  max_wall_clock_days = (resolved_days input shape).0;
}

abbrev sources_of : ResolveStressCapsInput → StressCapShape → ShapeSources
sources_of input shape = record {
  max_count = (resolved_count input shape).1;
  max_wall_clock_days = (resolved_days input shape).1;
}

unfoldable pub resolve_stress_caps : ResolveStressCapsInput → ResolvedStressCaps
unfolding resolve_number
resolve_stress_caps input = record {
  caps = record {
    sustained_load = caps_of input sustained_load;
    concurrency = caps_of input concurrency;
    fault_injection = caps_of input fault_injection;
    ttt_delivery = caps_of input ttt_delivery;
  };
  sources = record {
    sustained_load = sources_of input sustained_load;
    concurrency = sources_of input concurrency;
    fault_injection = sources_of input fault_injection;
    ttt_delivery = sources_of input ttt_delivery;
  };
}

abbrev pub run_count_limit : ResolvedStressCaps → StressCapShape → ℕ
run_count_limit r shape = (at_shape r.caps shape).max_count

abbrev pub wall_clock_limit_days : ResolvedStressCaps → StressCapShape → ℕ
wall_clock_limit_days r shape = (at_shape r.caps shape).max_wall_clock_days

-- Whole days begun between two times in milliseconds, which count from JavaScript's earliest time.
-- The code's value is 0 or less where `now` is not later, and no cap is below 0.
unfoldable pub days_begun : (started_at now : ℕ) → ℕ
days_begun started_at now = (now - started_at + 86399999) / 86400000

-- `none` where a time did not parse, so that the code's difference is NaN.
unfoldable pub wall_clock_days : (started_at now : Option ℕ) → Option ℕ
unfolding days_begun
wall_clock_days (some s) (some n) = some (days_begun s n)
wall_clock_days _ _ = none

abbrev pub wall_clock_breach : StressCapShape → ℕ → Option ℕ → Option StressCapBreach
wall_clock_breach shape limit none = none
wall_clock_breach shape limit (some days) =
    if ltb limit days
    then some (record { kind = wall_clock; value = days; limit = limit; shape = shape })
    else none

-- `parse` is `Date.parse`, `none` where it gives NaN; `clock` is the text of the current time.
unfoldable pub detect_stress_cap_breach :
    (parse : String → Option ℕ) (clock : String) (shape : StressCapShape) (count : ℕ)
    (started_at : String) (now : Option String) (caps : ResolvedStressCaps)
    → Option StressCapBreach
unfolding wall_clock_days
detect_stress_cap_breach parse clock shape count started_at now caps =
    if ltb (run_count_limit caps shape) count
    then some (record {
      kind = run_count;
      value = count;
      limit = run_count_limit caps shape;
      shape = shape;
    })
    else wall_clock_breach shape (wall_clock_limit_days caps shape)
        (wall_clock_days (parse started_at) (parse (or_else now clock)))
