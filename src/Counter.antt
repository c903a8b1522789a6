-- ===== src/Counter.antt =====
-- app/src/counter.c: alarms on the channels of a hardware counter. The counter driver, the heap and the
-- application's callbacks are outside code: their calls are recorded with their answers.
pub mod Alarms
pub mod Request
pub mod Use
mod Tests
use zephyr_development.Prelude.{
  ℕ, zero, suc, Bool, true, false, Option, none, some, List, [], ◌∷◌, ℤ, pos, neg, is_zero, Env,
  Trace, enodev, enomem, einval, if◌then◌else◌, leb, ltb, get_elem?, replicate,
}

-- `struct counter_alarm_cfg`: whether `callback` is set, the callback kept in `user_data`, and the ticks.
pub record AlarmCfg : Type 0 where
  pub callback : Bool
  pub user_data : Option ℕ
  pub ticks : ℕ

-- An entry as `ct_init` leaves it.
abbrev pub no_alarm : AlarmCfg
no_alarm = record { callback = true; user_data = none; ticks = 0 }

pub data Call : Type 0 where
  device_is_ready : Call
  counter_get_num_of_channels : Call
  counter_get_max_top_value : Call
  counter_get_top_value : Call
  counter_get_frequency : Call
  k_calloc : Call
  k_free : Call
  counter_start : Call
  counter_stop : Call
  counter_reset : Call
  counter_set_value : ℕ → Call
  counter_get_value : Call
  counter_us_to_ticks : ℕ → Call
  counter_ticks_to_us : ℕ → Call
  counter_set_channel_alarm : ℕ → AlarmCfg → Call
  counter_cancel_channel_alarm : ℕ → Call
  cb : ℕ → ℕ → ℕ → Call

-- The return value, or the number returned.
pub record Answer : Type 0 where
  pub ret : ℤ
  pub value : ℕ

-- `struct counter_info` and the trace. `cfg` is none where there is no block: before `ct_init`, or freed.
pub record CounterInfo : Type 0 where
  pub num_channels : ℕ
  pub max_top : ℕ
  pub current_top : ℕ
  pub freq : ℕ
  pub cfg : Option (List AlarmCfg)
  pub trace : Trace Call Answer

-- `ct.cfg[i] = c`; none for an access outside the block.
abbrev pub store : ℕ → AlarmCfg → List AlarmCfg → Option (List AlarmCfg)
store i c [] = none
store zero c (x ∷ xs) = some (c ∷ xs)
store (suc i) c (x ∷ xs) = elim (store i c xs) [ none ↦ none | some ys ↦ some (x ∷ ys) ]

abbrev pub read : ℕ → Option (List AlarmCfg) → Option AlarmCfg
read i none = none
read i (some l) = get_elem? l i

abbrev pub write : ℕ → AlarmCfg → CounterInfo → Option CounterInfo
write i c ct = elim ct.cfg [
  | none ↦ none
  | some l ↦ elim (store i c l) [ none ↦ none | some l' ↦ some (record ct { cfg = some l' }) ]
]

module _ (env : Env Call Answer) where
  abbrev pub driver : Call → CounterInfo → Answer × CounterInfo
  driver c ct = (env ct.trace c, record ct { trace = (c, env ct.trace c) ∷ ct.trace })

  -- `k_calloc` answers 0 for NULL here; the block is zeroed, then each `callback` is set.
  unfoldable pub ct_init : CounterInfo → ℤ × CounterInfo
  ct_init ct =
      let ready = driver device_is_ready ct in
      let channels = driver counter_get_num_of_channels ready.1 in
      let max = driver counter_get_max_top_value channels.1 in
      let top = driver counter_get_top_value max.1 in
      let hz = driver counter_get_frequency top.1 in
      let block = driver k_calloc hz.1 in
      let info = record block.1 {
        num_channels = channels.0.value;
        max_top = max.0.value;
        current_top = top.0.value;
        freq = hz.0.value;
      } in
      if is_zero ready.0.ret
      then (neg enodev, ready.1)
      else if is_zero block.0.ret
      then (neg enomem, record info { cfg = none })
      else (pos 0, record info { cfg = some (replicate channels.0.value no_alarm) })

  unfoldable pub ct_destroy : CounterInfo → CounterInfo
  ct_destroy ct = record (driver k_free (driver counter_stop ct).1).1 { cfg = none }

  unfoldable pub ct_start : CounterInfo → ℤ × CounterInfo
  ct_start ct = ((driver counter_start ct).0.ret, (driver counter_start ct).1)

  unfoldable pub ct_stop : CounterInfo → ℤ × CounterInfo
  ct_stop ct = ((driver counter_stop ct).0.ret, (driver counter_stop ct).1)

  unfoldable pub ct_rst : CounterInfo → ℤ × CounterInfo
  ct_rst ct = ((driver counter_reset ct).0.ret, (driver counter_reset ct).1)

  unfoldable pub ct_set_val : ℕ → CounterInfo → ℤ × CounterInfo
  ct_set_val ticks ct =
      let set = driver (counter_set_value ticks) ct in
      if ltb ct.current_top ticks then (neg einval, ct) else (set.0.ret, set.1)

  -- With the ticks that the driver gives.
  unfoldable pub ct_get_val : CounterInfo → (ℤ × ℕ) × CounterInfo
  ct_get_val ct = let got = driver counter_get_value ct in ((got.0.ret, got.0.value), got.1)

  -- None is an access outside the block, here and below. The callback is none for NULL.
  unfoldable pub ct_set_alarm : ℕ → ℕ → Option ℕ → CounterInfo → Option (ℤ × CounterInfo)
  ct_set_alarm chan_id us user ct =
      let ticks = driver (counter_us_to_ticks us) ct in
      if leb ct.num_channels chan_id then some (neg einval, ct) else elim (read chan_id ct.cfg) [
        | none ↦ none
        | some old ↦
            let new = record old { user_data = user; ticks = ticks.0.value } in
            elim (write chan_id new ticks.1) [
              | none ↦ none
              | some ct' ↦
                  let set = driver (counter_set_channel_alarm chan_id new) ct' in
                  some (set.0.ret, set.1)
            ]
      ]

  unfoldable pub ct_remove_alarm : ℕ → CounterInfo → Option (ℤ × CounterInfo)
  ct_remove_alarm chan_id ct =
      if leb ct.num_channels chan_id then some (neg einval, ct) else elim (read chan_id ct.cfg) [
        | none ↦ none
        | some old ↦ elim (write chan_id (record old { user_data = none }) ct) [
          | none ↦ none
          | some ct' ↦
              let cancelled = driver (counter_cancel_channel_alarm chan_id) ct' in
              some (cancelled.0.ret, cancelled.1)
        ]
      ]

  -- The driver calls it with the `user_data` of the configuration that it was given. ALARM_REPEAT is 0. `meanwhile`
  -- is what the application's callback does to the state of this file before it returns; none is an access
  -- outside the block.
  unfoldable pub counter_alarm_callback :
      (ℕ → ℕ → ℕ → CounterInfo → Option CounterInfo)
      → ℕ
      → ℕ
      → Option ℕ
      → CounterInfo
      → Option CounterInfo
  counter_alarm_callback meanwhile chan_id ticks user_data ct = elim user_data [
    | none ↦ some ct
    | some user ↦
        let us = driver (counter_ticks_to_us ticks) ct in
        let told = driver (cb user chan_id us.0.value) us.1 in
        elim (meanwhile user chan_id us.0.value told.1) [
          | none ↦ none
          | some after ↦
              if is_zero told.0.ret
              then (elim (read chan_id after.cfg) [
                | none ↦ none
                | some c ↦ some (driver (counter_set_channel_alarm chan_id c) after).1
              ])
              else some after
        ]
  ]
