-- ===== src/Counter/Request.antt =====
-- The calls that the application makes of app/src/counter.c between ct_init and ct_destroy.
use zephyr_development.Prelude.{
  ℕ, ◌≡◌, refl, sym, ap, ◌∙◌, true, Option, none, some, List, [], ◌∷◌, ℤ, Env, leb, arith,
  Bool-cases, inl, inr,
}
use zephyr_development.Counter.{
  Call, Answer, CounterInfo, ct_set_val, ct_get_val, ct_set_alarm, ct_remove_alarm, ct_start,
  ct_stop, ct_rst,
}
use zephyr_development.Counter.Alarms.{IsValid, ct_set_alarm-Sets, ct_remove_alarm-Sets}

-- One call of the application between `ct_init` and `ct_destroy`.
pub data Request : Type 0 where
  set_val : ℕ → Request
  get_val : Request
  set_alarm : ℕ → ℕ → Option ℕ → Request
  remove_alarm : ℕ → Request
  start_counter : Request
  stop_counter : Request
  reset_counter : Request

abbrev pub state_of : Option (ℤ × CounterInfo) → Option CounterInfo
state_of none = none
state_of (some r) = some r.1

module _ (env : Env Call Answer) where
  -- None is an access outside the table.
  abbrev pub request_once : Request → CounterInfo → Option CounterInfo
  request_once (set_val ticks) ct = some (ct_set_val env ticks ct).1
  request_once get_val ct = some (ct_get_val env ct).1
  request_once (set_alarm chan_id us user) ct = state_of (ct_set_alarm env chan_id us user ct)
  request_once (remove_alarm chan_id) ct = state_of (ct_remove_alarm env chan_id ct)
  request_once start_counter ct = some (ct_start env ct).1
  request_once stop_counter ct = some (ct_stop env ct).1
  request_once reset_counter ct = some (ct_rst env ct).1

  abbrev pub request_all : List Request → CounterInfo → Option CounterInfo
  request_all [] ct = some ct
  request_all (q ∷ qs) ct = elim (request_once q ct) [ none ↦ none | some ct' ↦ request_all qs ct' ]

  set_alarm_outside :
      (chan_id us : ℕ) (user : Option ℕ) (ct : CounterInfo)
      → leb ct.num_channels chan_id ≡ true
      → state_of (ct_set_alarm env chan_id us user ct) ≡ some ct
  unfolding ct_set_alarm
  set_alarm_outside chan_id us user ct e = ground arith

  remove_alarm_outside :
      (chan_id : ℕ) (ct : CounterInfo)
      → leb ct.num_channels chan_id ≡ true
      → state_of (ct_remove_alarm env chan_id ct) ≡ some ct
  unfolding ct_remove_alarm
  remove_alarm_outside chan_id ct e = ground arith

  -- What every use leaves.
  abbrev pub Keeps : Option CounterInfo → CounterInfo → Type 0
  Keeps r ct =
      (ct' : CounterInfo) × (r ≡ some ct') × IsValid ct' × (ct'.num_channels ≡ ct.num_channels)

  pub same_table :
      (ct ct' : CounterInfo)
      → IsValid ct
      → ct'.cfg ≡ ct.cfg
      → ct'.num_channels ≡ ct.num_channels
      → IsValid ct'
  same_table ct ct' v e n = record { table = v.table; block = e ∙ v.block; full = v.full ∙ sym n }

  set_val_keeps :
      (ticks : ℕ) (ct : CounterInfo)
      → ((ct_set_val env ticks ct).1.cfg ≡ ct.cfg)
        × ((ct_set_val env ticks ct).1.num_channels ≡ ct.num_channels)
  unfolding ct_set_val
  set_val_keeps ticks ct = ground arith

  pub request_once-Keeps :
      (q : Request) (ct : CounterInfo) → IsValid ct → Keeps (request_once q ct) ct
  unfolding ct_start ct_stop ct_rst ct_get_val
  request_once-Keeps (set_val ticks) ct v =
      let (e, n) = set_val_keeps ticks ct in
      ((ct_set_val env ticks ct).1, refl, same_table ct (ct_set_val env ticks ct).1 v e n, n)
  request_once-Keeps get_val ct v =
      ((ct_get_val env ct).1, refl, same_table ct (ct_get_val env ct).1 v refl refl, refl)
  request_once-Keeps (set_alarm chan_id us user) ct v =
      elim (Bool-cases (leb ct.num_channels chan_id)) [
        | inl e ↦ (ct, set_alarm_outside chan_id us user ct e, v, refl)
        | inr e ↦
            let (ret, ct', c, r, u, t, s) =
              ct_set_alarm-Sets env chan_id us user ct v (ground arith) in
            (ct', ap state_of r, s.valid, s.channels)
      ]
  request_once-Keeps (remove_alarm chan_id) ct v = elim (Bool-cases (leb ct.num_channels chan_id)) [
    | inl e ↦ (ct, remove_alarm_outside chan_id ct e, v, refl)
    | inr e ↦
        let (ret, ct', c, r, u, s) = ct_remove_alarm-Sets env chan_id ct v (ground arith) in
        (ct', ap state_of r, s.valid, s.channels)
  ]
  request_once-Keeps start_counter ct v =
      ((ct_start env ct).1, refl, same_table ct (ct_start env ct).1 v refl refl, refl)
  request_once-Keeps stop_counter ct v =
      ((ct_stop env ct).1, refl, same_table ct (ct_stop env ct).1 v refl refl, refl)
  request_once-Keeps reset_counter ct v =
      ((ct_rst env ct).1, refl, same_table ct (ct_rst env ct).1 v refl refl, refl)

  pub request_all-Keeps :
      (qs : List Request) (ct : CounterInfo) → IsValid ct → Keeps (request_all qs ct) ct
  request_all-Keeps [] ct v = (ct, refl, v, refl)
  request_all-Keeps (q ∷ qs) ct v =
      let (ct', e, v', n) = request_once-Keeps q ct v in
      let (last, e', v'', n') = request_all-Keeps qs ct' v' in
      (last, rw (e, request_all) e', v'', n' ∙ n)
