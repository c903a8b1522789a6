-- ===== src/Storage.antt =====
-- app/src/storage.c: mounting the NVS store on its flash partition. The flash driver and NVS are outside code:
-- each call is recorded with its answer.
pub mod Sectors
mod Tests
use zephyr_development.Prelude.{
  ℕ, ◌/◌, ◌%◌, ◌^◌, not, Option, none, some, List, [], ◌∷◌, ℤ, neg, is_zero, Io, Env, Trace, enodev,
  ◌==◌, if◌then◌else◌,
}

pub data Call : Type 0 where
  device_is_ready : Call
  flash_get_page_info_by_offs : ℕ → Call
  nvs_mount : ℕ → ℕ → ℕ → Call
  nvs_read : ℕ → ℕ → Call
  nvs_write : ℕ → List ℕ → Call

-- The return value (0 also stands for false), and the size of the page.
pub record Answer : Type 0 where
  pub ret : ℤ
  pub size : ℕ

-- The fields of `struct nvs_fs` that the file sets, and the trace.
pub record NvsFs : Type 0 where
  pub offset : ℕ
  pub sector_size : ℕ
  pub sector_count : ℕ
  pub trace : Trace Call Answer

-- What the devicetree and the NVS header fix: the partition, and the widths of the fields `sector_size` and
-- `sector_count`.
pub record Config : Type 0 where
  pub partition_offset : ℕ
  pub partition_size : ℕ
  pub size_bits : ℕ
  pub count_bits : ℕ

module _ (config : Config) (env : Env Call Answer) where
  abbrev pub nvs : Call → Io NvsFs Answer
  nvs c fs = (env fs.trace c, record fs { trace = (c, env fs.trace c) ∷ fs.trace })

  -- From the page's size on. None is the division by a sector size of 0.
  unfoldable pub mount : ℕ → NvsFs → Option (ℤ × NvsFs)
  mount page fs =
      let size = page % 2 ^ config.size_bits in
      let count = (config.partition_size / size) % 2 ^ config.count_bits in
      let mounted =
        nvs (nvs_mount fs.offset size count)
          (record fs { sector_size = size; sector_count = count }) in
      if size == 0 then none else some (mounted.0.ret, mounted.1)

  unfoldable pub storage_init : NvsFs → Option (ℤ × NvsFs)
  storage_init fs =
      let ready = nvs device_is_ready fs in
      let info =
        nvs (flash_get_page_info_by_offs config.partition_offset)
          (record ready.1 { offset = config.partition_offset }) in
      if is_zero ready.0.ret
      then some (neg enodev, ready.1)
      else if not (is_zero info.0.ret)
      then some (info.0.ret, info.1)
      else mount info.0.size info.1

  unfoldable pub storage_read : ℕ → ℕ → Io NvsFs ℤ
  storage_read id len fs = ((nvs (nvs_read id len) fs).0.ret, (nvs (nvs_read id len) fs).1)

  unfoldable pub storage_write : ℕ → List ℕ → Io NvsFs ℤ
  storage_write id bytes fs = ((nvs (nvs_write id bytes) fs).0.ret, (nvs (nvs_write id bytes) fs).1)
