-- ===== src/Counter/Use.antt =====
-- app/src/counter.c over any sequence of uses between ct_init and ct_destroy.
use zephyr_development.Prelude.{
  ℕ, zero, suc, ◌≡◌, ◌<◌, refl, sym, subst, ap, ◌∙◌, true, Option, none, some, List, [], ◌∷◌, ℤ,
  is_zero, Env, if◌then◌else◌, length, arith, Bool-cases, inl, inr, replicate, All,
}
use zephyr_development.Counter.{
  no_alarm, Call, Answer, CounterInfo, ct_init, ct_destroy, ct_set_alarm, counter_alarm_callback,
  cb, counter_set_channel_alarm, counter_ticks_to_us, driver, read,
}
use zephyr_development.Counter.Alarms.{IsValid, read_inside}
use zephyr_development.Counter.Request.{
  Request, request_once, request_all, Keeps, same_table, request_once-Keeps, request_all-Keeps,
}

-- One use: a call of the application, or the driver's call when an alarm fires, with the calls that the
-- application's callback makes before it returns.
pub data Use : Type 0 where
  asks : Request → Use
  fires : ℕ → ℕ → Option ℕ → List Request → Use

-- The driver fires alarms of its own channels only.
abbrev pub IsServed : ℕ → Use → Type 0
IsServed n (fires chan_id ticks user_data calls) = chan_id < n
IsServed n (asks request) = Unit

length-replicate : {A : Type 0} (n : ℕ) (a : A) → length (replicate n a) ≡ n
length-replicate zero a = refl
length-replicate (suc n) a = ap suc (length-replicate n a)

module _ (env : Env Call Answer) where
  abbrev pub use_once : Use → CounterInfo → Option CounterInfo
  use_once (asks request) ct = request_once env request ct
  use_once (fires chan_id ticks user_data calls) ct =
      counter_alarm_callback env (λ user chan us. request_all env calls) chan_id ticks user_data ct

  abbrev pub use_all : List Use → CounterInfo → Option CounterInfo
  use_all [] ct = some ct
  use_all (u ∷ us) ct = elim (use_once u ct) [ none ↦ none | some ct' ↦ use_all us ct' ]

  -- What the handler of an alarm does once the callback has returned.
  repeat-Keeps :
      (chan_id : ℕ) (ret : ℤ) (ct : CounterInfo)
      → IsValid ct
      → chan_id < ct.num_channels
      → Keeps env
          (if is_zero ret
            then (elim (read chan_id ct.cfg) [
              | none ↦ none
              | some c ↦ some (driver env (counter_set_channel_alarm chan_id c) ct).1
            ])
            else some ct)
          ct
  repeat-Keeps chan_id ret ct v h = elim (Bool-cases (is_zero ret)) [
    | inl z ↦
        let (c, e) = read_inside chan_id ct v h in
        let set = (driver env (counter_set_channel_alarm chan_id c) ct).1 in
        rw (z, e) (set, refl, same_table env ct set v refl refl, refl)
    | inr z ↦ rw z (ct, refl, v, refl)
  ]

  -- What the handler does with a callback that comes to its end.
  callback_returns :
      (meanwhile : ℕ → ℕ → ℕ → CounterInfo → Option CounterInfo)
      → (chan_id ticks user : ℕ) (ct after : CounterInfo)
      → let us = driver env (counter_ticks_to_us ticks) ct in
        let told = driver env (cb user chan_id us.0.value) us.1 in
        meanwhile user chan_id us.0.value told.1 ≡ some after
        → counter_alarm_callback env meanwhile chan_id ticks (some user) ct ≡ (
            if is_zero told.0.ret
            then (elim (read chan_id after.cfg) [
              | none ↦ none
              | some c ↦ some (driver env (counter_set_channel_alarm chan_id c) after).1
            ])
            else some after)
  unfolding counter_alarm_callback
  callback_returns meanwhile chan_id ticks user ct after e = rw (e, counter_alarm_callback) refl

  fires-Keeps :
      (calls : List Request) (chan_id ticks : ℕ) (user_data : Option ℕ) (ct : CounterInfo)
      → IsValid ct
      → chan_id < ct.num_channels
      → Keeps env (use_once (fires chan_id ticks user_data calls) ct) ct
  unfolding counter_alarm_callback
  fires-Keeps calls chan_id ticks none ct v h = (ct, refl, v, refl)
  fires-Keeps calls chan_id ticks (some user) ct v h =
      let us = driver env (counter_ticks_to_us ticks) ct in
      let told = driver env (cb user chan_id us.0.value) us.1 in
      let (after, e, v', n) =
        request_all-Keeps env calls told.1 (same_table env ct told.1 v refl refl) in
      let inside : chan_id < after.num_channels = subst (λ k. chan_id < k) (sym n) h in
      let (last, e', v'', n') = repeat-Keeps chan_id told.0.ret after v' inside in
      let same =
        callback_returns (λ user chan us. request_all env calls) chan_id ticks user ct after e in
      (last, same ∙ e', v'', n' ∙ n)

  use_once-Keeps :
      (u : Use) (ct : CounterInfo)
      → IsValid ct
      → IsServed ct.num_channels u
      → Keeps env (use_once u ct) ct
  use_once-Keeps (asks request) ct v h = request_once-Keeps env request ct v
  use_once-Keeps (fires chan_id ticks user_data calls) ct v h =
      fires-Keeps calls chan_id ticks user_data ct v h

  use_all-IsValid :
      (us : List Use) (ct : CounterInfo)
      → IsValid ct
      → All (IsServed ct.num_channels) us
      → (ct' : CounterInfo) × (use_all us ct ≡ some ct') × IsValid ct'
  use_all-IsValid [] ct v h = (ct, refl, v)
  use_all-IsValid (u ∷ us) ct v h =
      let (ct', e, v', n) = use_once-Keeps u ct v h.0 in
      let served = subst (λ k. All (IsServed k) us) (sym n) h.1 in
      let (last, e', v'') = use_all-IsValid us ct' v' served in (last, rw (e, use_all) e', v'')

  cfg-ct_init :
      (ct : CounterInfo)
      → is_zero (ct_init env ct).0 ≡ true
      → (ct_init env ct).1.cfg ≡ some (replicate (ct_init env ct).1.num_channels no_alarm)
  unfolding ct_init
  cfg-ct_init ct h = ground arith

  -- Once ct_init has returned 0, any sequence of uses other than ct_init and ct_destroy (the other
  -- calls of the application, alarms with a NULL callback included, and the alarms that the driver
  -- fires, if these are of its own channels only, with any such calls that the application's
  -- callbacks make before they return) runs to its end with no access outside the channel table
  -- and leaves a table with an entry for each channel.
  pub use_all-ct_init :
      (us : List Use) (ct : CounterInfo)
      → is_zero (ct_init env ct).0 ≡ true
      → All (IsServed (ct_init env ct).1.num_channels) us
      → (ct' : CounterInfo) × (use_all us (ct_init env ct).1 ≡ some ct') × IsValid ct'
  use_all-ct_init us ct h served =
      let started = (ct_init env ct).1 in
      let n = started.num_channels in
      use_all-IsValid us started
        (record {
          table = replicate n no_alarm;
          block = cfg-ct_init ct h;
          full = length-replicate n no_alarm;
        })
        served

  -- After ct_destroy, setting an alarm on any channel of the counter is an access outside the
  -- table.
  pub set_alarm-ct_destroy :
      (chan_id us : ℕ) (user : Option ℕ) (ct : CounterInfo)
      → chan_id < ct.num_channels
      → ct_set_alarm env chan_id us user (ct_destroy env ct) ≡ none
  unfolding ct_set_alarm ct_destroy
  set_alarm-ct_destroy chan_id us user ct h = ground arith
