-- ===== src/Storage/Sectors.antt =====
-- Where app/src/storage.c puts the sectors of its store.
use native.Mathlib.Nat.{div-add-mod', mod-lt, mod-eq_of_lt}
use zephyr_development.Prelude.{
  ℕ, ◌+◌, ◌*◌, ◌/◌, ◌^◌, ◌≤◌, ◌<◌, ◌≡◌, ◌⊎◌, refl, false, some, List, [], ◌∷◌, ℤ, neg, is_zero, Env,
  Trace, enodev, arith, inl, inr, Bool-cases,
}
use zephyr_development.Storage.{
  Call, Answer, NvsFs, Config, device_is_ready, flash_get_page_info_by_offs, nvs_mount, nvs, mount,
  storage_init,
}

-- A mounted store: its offset, the size of a sector and their number.
pub record Store : Type 0 where
  pub offset : ℕ
  pub sector_size : ℕ
  pub sector_count : ℕ

-- The calls of `nvs_mount` so far, newest first.
abbrev pub mounts : Trace Call Answer → List Store
mounts [] = []
mounts ((nvs_mount o s c, a) ∷ past) =
    record { offset = o; sector_size = s; sector_count = c } ∷ mounts past
mounts ((c, a) ∷ past) = mounts past

-- The sectors are those of the page, lie in the partition, and leave less than one sector of it unused.
pub record IsLaidOut (config : Config) (page : ℕ) (s : Store) : Type 0 where
  pub start : s.offset ≡ config.partition_offset
  pub whole_page : s.sector_size ≡ page
  pub inside : s.sector_count * s.sector_size ≤ config.partition_size
  pub full : config.partition_size < s.sector_count * s.sector_size + s.sector_size

-- The page is not empty, and its size and the number of pages fit their fields.
pub record Fits (config : Config) (page : ℕ) : Type 0 where
  pub positive : 0 < page
  pub size_fits : page < 2 ^ config.size_bits
  pub count_fits : config.partition_size / page < 2 ^ config.count_bits

module _ (config : Config) (env : Env Call Answer) where
  laid_out :
      (page : ℕ)
      → Fits config page
      → IsLaidOut config page (record {
        offset = config.partition_offset;
        sector_size = page;
        sector_count = config.partition_size / page;
      })
  laid_out page f =
      let split = div-add-mod' config.partition_size page in
      let rest = mod-lt config.partition_size f.positive in
      record {
        start = refl;
        whole_page = refl;
        inside = omega (arith, split);
        full = omega (arith, split, rest);
      }

  -- What the mount is called with, where the page fits.
  mount_lem :
      (page : ℕ) (fs : NvsFs)
      → Fits config page
      → let count = config.partition_size / page in
        let done =
          nvs config env
            (nvs_mount fs.offset page count)
            (record fs { sector_size = page; sector_count = count }) in
        mount config env page fs ≡ some (done.0.ret, done.1)
  unfolding mount
  mount_lem page fs f =
      rw (mod-eq_of_lt f.size_fits, mod-eq_of_lt f.count_fits, mount) (ground (arith, f.positive))

  -- The page's size as the flash driver tells it.
  abbrev pub page_of : NvsFs → ℕ
  page_of fs =
      (env ((device_is_ready, env fs.trace device_is_ready) ∷ fs.trace)
        (flash_get_page_info_by_offs config.partition_offset)).size

  -- If the flash page is not empty and its size and the number of pages fit their fields, the
  -- mount divides by no 0, and either NVS is not called and the result is not 0, or it is called
  -- once with sectors of the size of a page that begin with the partition, lie inside it and leave
  -- less than one sector of it unused.
  pub storage_init_outcome :
      (fs : NvsFs)
      → Fits config (page_of fs)
      → (r : ℤ) × (fs' : NvsFs) × (storage_init config env fs ≡ some (r, fs'))
        × ((mounts fs'.trace ≡ mounts fs.trace) × (is_zero r ≡ false)
            ⊎ ((s : Store) × (mounts fs'.trace ≡ s ∷ mounts fs.trace)
                × IsLaidOut config (page_of fs) s))
  unfolding storage_init
  storage_init_outcome fs f =
      let ready = nvs config env device_is_ready fs in
      let info =
        nvs config env (flash_get_page_info_by_offs config.partition_offset)
          (record ready.1 { offset = config.partition_offset }) in
      let page = page_of fs in
      let count = config.partition_size / page in
      let done =
        nvs config env (nvs_mount config.partition_offset page count)
          (record info.1 { sector_size = page; sector_count = count }) in
      elim (Bool-cases (is_zero ready.0.ret)) [
        | inl e ↦ (neg enodev, ready.1, rw (e, storage_init) refl, inl (refl, refl))
        | inr e ↦ elim (Bool-cases (is_zero info.0.ret)) [
          | inr e' ↦ (info.0.ret, info.1, rw (e, e', storage_init) refl, inl (refl, e'))
          | inl e' ↦ (
            done.0.ret,
            done.1,
            rw (e, e', storage_init) (mount_lem page info.1 f),
            inr (
              record { offset = config.partition_offset; sector_size = page; sector_count = count },
              refl,
              laid_out page f,
            ),
          )
        ]
      ]
