-- ===== src/Counter/Tests.antt =====
-- Runs of app/src/counter.c on a counter of two channels, and the theorems at concrete inputs.
use zephyr_development.Prelude.{◌≡◌, refl, none, some, [], ◌∷◌, ℤ, pos, Env, arith}
use zephyr_development.Counter.{
  AlarmCfg, Call, Answer, CounterInfo, no_alarm, counter_get_num_of_channels, counter_us_to_ticks,
  ct_init, ct_destroy, ct_set_alarm,
}
use zephyr_development.Counter.Alarms.{IsValid, Sets, ct_set_alarm-Sets}
use zephyr_development.Counter.Request.{set_alarm, remove_alarm}
use zephyr_development.Counter.Use.{asks, fires, use_all, use_all-ct_init, set_alarm-ct_destroy}

-- Two channels, ten ticks for each microsecond; all else answers 1, also the callbacks.
abbrev timer : Env Call Answer
timer past counter_get_num_of_channels = record { ret = pos 0; value = 2 }
timer past (counter_us_to_ticks us) = record { ret = pos 0; value = 20 }
timer past c = record { ret = pos 1; value = 0 }

abbrev unset : CounterInfo
unset = record { num_channels = 0; max_top = 0; current_top = 0; freq = 0; cfg = none; trace = [] }

abbrev running : CounterInfo
running = record {
  num_channels = 2;
  max_top = 99;
  current_top = 99;
  freq = 1;
  cfg = some (no_alarm ∷ no_alarm ∷ []);
  trace = [];
}

running-IsValid : IsValid running
running-IsValid = record { table = no_alarm ∷ no_alarm ∷ []; block = refl; full = refl }

ct_set_alarm-Sets_example :
    (ret : ℤ) × (ct' : CounterInfo) × (c : AlarmCfg) × (ct_set_alarm timer 1 2 (some 7) running
      ≡ some (ret, ct'))
    × (c.user_data ≡ some 7)
    × (c.ticks ≡ 20)
    × Sets 1 c running ct'
ct_set_alarm-Sets_example =
    ct_set_alarm-Sets timer 1 2 (some 7) running running-IsValid (omega arith)

use_all-ct_init_example :
    (ct' : CounterInfo) × (use_all timer
        (asks (set_alarm 1 2 (some 7))
          ∷ asks (set_alarm 5 2 none)
          ∷ fires 1 20 (some 7) (set_alarm 0 2 (some 8) ∷ [])
          ∷ asks (remove_alarm 1)
          ∷ [])
        (ct_init timer unset).1
      ≡ some ct')
    × IsValid ct'
unfolding ct_init
use_all-ct_init_example =
    use_all-ct_init timer
      (asks (set_alarm 1 2 (some 7))
        ∷ asks (set_alarm 5 2 none)
        ∷ fires 1 20 (some 7) (set_alarm 0 2 (some 8) ∷ [])
        ∷ asks (remove_alarm 1)
        ∷ [])
      unset refl (tt, (tt, (omega arith, (tt, tt))))

set_alarm-ct_destroy_example : ct_set_alarm timer 1 2 (some 7) (ct_destroy timer running) ≡ none
set_alarm-ct_destroy_example = set_alarm-ct_destroy timer 1 2 (some 7) running (omega arith)
