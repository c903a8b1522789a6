-- ===== src/Counter/Alarms.antt =====
-- Which alarms app/src/counter.c keeps, and that it stays inside its table.
use zephyr_development.Prelude.{
  ℕ, zero, suc, ◌≡◌, ◌==◌, ◌<◌, refl, sym, ap, ◌∙◌, false, Option, none, some, List, [], ◌∷◌, ℤ,
  Env, if◌then◌else◌, leb, get_elem?, length, arith,
}
use zephyr_development.Counter.{
  AlarmCfg, Call, Answer, CounterInfo, store, read, write, ct_set_alarm, ct_remove_alarm,
  counter_us_to_ticks, counter_set_channel_alarm, counter_cancel_channel_alarm, driver,
}

-- The table has an entry for each channel.
pub record IsValid (ct : CounterInfo) : Type 0 where
  pub table : List AlarmCfg
  pub block : ct.cfg ≡ some table
  pub full : length table ≡ ct.num_channels

get_inside : (l : List AlarmCfg) (i : ℕ) → i < length l → (c : AlarmCfg) × (get_elem? l i ≡ some c)
get_inside [] i h = absurd (omega arith)
get_inside (x ∷ xs) zero h = (x, refl)
get_inside (x ∷ xs) (suc i) h = get_inside xs i (omega arith)

-- A write inside the table changes that entry and no other.
store_inside :
    (i : ℕ) (c : AlarmCfg) (l : List AlarmCfg)
    → i < length l
    → (l' : List AlarmCfg) × (store i c l ≡ some l')
      × (length l' ≡ length l)
      × ((j : ℕ) → get_elem? l' j ≡ (if j == i then some c else get_elem? l j))
store_inside i c [] h = absurd (omega arith)
store_inside zero c (x ∷ xs) h = (c ∷ xs, refl, refl, other)
  where
    other : (j : ℕ) → get_elem? (c ∷ xs) j ≡ (if j == zero then some c else get_elem? (x ∷ xs) j)
    other zero = refl
    other (suc j) = ground arith
store_inside (suc i) c (x ∷ xs) h =
    let (l', e, len, reads) = store_inside i c xs (omega arith) in
    (x ∷ l', rw e refl, ap suc len, other l' reads)
  where
    other :
        (l' : List AlarmCfg)
        → ((j : ℕ) → get_elem? l' j ≡ (if j == i then some c else get_elem? xs j))
        → (j : ℕ) → get_elem? (x ∷ l') j ≡ (if j == suc i then some c else get_elem? (x ∷ xs) j)
    other l' reads zero = ground arith
    other l' reads (suc j) = reads j ∙ ground arith

-- What an operation on one channel leaves: the entry is `c`, the others and the number of channels are as
-- before, and the table has an entry for each channel.
pub record Sets (chan_id : ℕ) (c : AlarmCfg) (ct ct' : CounterInfo) : Type 0 where
  pub valid : IsValid ct'
  pub channels : ct'.num_channels ≡ ct.num_channels
  pub reads : (j : ℕ) → read j ct'.cfg ≡ (if j == chan_id then some c else read j ct.cfg)

write_inside :
    (i : ℕ) (c : AlarmCfg) (ct : CounterInfo)
    → IsValid ct
    → i < ct.num_channels
    → (ct' : CounterInfo) × (write i c ct ≡ some ct') × Sets i c ct ct'
write_inside i c ct v h =
    let (l', e, len, reads) = store_inside i c v.table (omega (arith, v.full)) in
    (
      record ct { cfg = some l' },
      ground (arith, v.block, e),
      record {
        valid = record { table = l'; block = refl; full = len ∙ v.full };
        channels = refl;
        reads = λ j.
            reads j
            ∙ ap (λ (b : Option (List AlarmCfg)). if j == i then some c else read j b)
                (sym v.block);
      },
    )

pub read_inside :
    (i : ℕ) (ct : CounterInfo)
    → IsValid ct
    → i < ct.num_channels
    → (c : AlarmCfg) × (read i ct.cfg ≡ some c)
read_inside i ct v h =
    let (c, e) = get_inside v.table i (omega (arith, v.full)) in (c, ap (read i) v.block ∙ e)

-- A call of the driver changes the trace alone.
driver-Sets :
    (env : Env Call Answer) (call : Call) (i : ℕ) (c : AlarmCfg) (ct ct' : CounterInfo)
    → Sets i c ct ct'
    → Sets i c ct (driver env call ct').1
driver-Sets env call i c ct ct' s = record {
  valid = record { table = s.valid.table; block = s.valid.block; full = s.valid.full };
  channels = s.channels;
  reads = s.reads;
}

module _ (env : Env Call Answer) where
  -- From a table with an entry for each channel, setting an alarm on a channel of the counter
  -- makes no access outside the table, keeps the callback and the ticks in the channel's entry and
  -- leaves every other entry alone.
  pub ct_set_alarm-Sets :
      (chan_id us : ℕ) (user : Option ℕ) (ct : CounterInfo)
      → IsValid ct
      → chan_id < ct.num_channels
      → (ret : ℤ) × (ct' : CounterInfo) × (c : AlarmCfg) × (ct_set_alarm env chan_id us user ct
          ≡ some (ret, ct'))
        × (c.user_data ≡ user)
        × (c.ticks ≡ (env ct.trace (counter_us_to_ticks us)).value)
        × Sets chan_id c ct ct'
  unfolding ct_set_alarm
  ct_set_alarm-Sets chan_id us user ct v h =
      let (old, found) = read_inside chan_id ct v h in
      let ticks = driver env (counter_us_to_ticks us) ct in
      let new : AlarmCfg = record old { user_data = user; ticks = ticks.0.value } in
      let (ct', e, s) =
        write_inside chan_id new ticks.1
          (record { table = v.table; block = v.block; full = v.full }) h in
      let set = driver env (counter_set_channel_alarm chan_id new) ct' in
      let inside : leb ct.num_channels chan_id ≡ false = ground arith in
      (
        set.0.ret,
        set.1,
        new,
        ground (arith, inside, found, e),
        refl,
        refl,
        driver-Sets env (counter_set_channel_alarm chan_id new) chan_id new ct ct'
            (record { valid = s.valid; channels = s.channels; reads = s.reads }),
      )

  -- Removing one does the same with no callback in the channel's entry.
  pub ct_remove_alarm-Sets :
      (chan_id : ℕ) (ct : CounterInfo)
      → IsValid ct
      → chan_id < ct.num_channels
      → (ret : ℤ) × (ct' : CounterInfo) × (c : AlarmCfg) × (ct_remove_alarm env chan_id ct
          ≡ some (ret, ct'))
        × (c.user_data ≡ none)
        × Sets chan_id c ct ct'
  unfolding ct_remove_alarm
  ct_remove_alarm-Sets chan_id ct v h =
      let (old, found) = read_inside chan_id ct v h in
      let new : AlarmCfg = record old { user_data = none } in
      let (ct', e, s) = write_inside chan_id new ct v h in
      let cancelled = driver env (counter_cancel_channel_alarm chan_id) ct' in
      let inside : leb ct.num_channels chan_id ≡ false = ground arith in
      (
        cancelled.0.ret,
        cancelled.1,
        new,
        ground (arith, inside, found, e),
        refl,
        driver-Sets env (counter_cancel_channel_alarm chan_id) chan_id new ct ct' s,
      )
