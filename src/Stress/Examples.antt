-- ===== src/Stress/Examples.antt =====
-- A sustained-load session with a cap of the command line, on its ninth day.
use protostar.Base.{ℕ, String, Option, none, some, ◌==◌, if◌then◌else◌}
use protostar.Stress.Caps.{
  sustained_load, wall_clock, ResolveStressCapsInput, resolve_stress_caps, days_begun,
  detect_stress_cap_breach,
}
use protostar.Stress.Caps.Breach.{IsBreach, detect_stress_cap_breach-IsBreach}

abbrev asked : ResolveStressCapsInput
asked = record {
  cli = some (record {
    sustained_load = some (record { max_count = some 10; max_wall_clock_days = none });
    concurrency = none;
    fault_injection = none;
    ttt_delivery = none;
  });
  config = none;
}

-- Two times, nine days apart, and no other.
abbrev parse : String → Option ℕ
parse text = if text == "then" then some 1000 else if text == "now" then some 777601000 else none

detect_stress_cap_breach-IsBreach_example :
    IsBreach 3
      (some 1000)
      (some 777601000)
      (resolve_stress_caps asked)
      sustained_load
      (some (record { kind = wall_clock; value = 9; limit = 7; shape = sustained_load }))
unfolding resolve_stress_caps detect_stress_cap_breach days_begun
detect_stress_cap_breach-IsBreach_example =
    detect_stress_cap_breach-IsBreach parse "clock" sustained_load 3 "then" (some "now")
      (resolve_stress_caps asked)
