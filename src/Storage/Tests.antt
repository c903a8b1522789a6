-- ===== src/Storage/Tests.antt =====
-- Mounting the store of app/src/storage.c on a small partition.
use zephyr_development.Prelude.{
  ℕ, ◌≡◌, ◌⊎◌, refl, none, some, [], ◌∷◌, ℤ, pos, Env, arith, is_zero, false,
}
use zephyr_development.Storage.{
  Call, Answer, NvsFs, Config, device_is_ready, flash_get_page_info_by_offs, storage_init, mount,
}
use zephyr_development.Storage.Sectors.{Store, mounts, IsLaidOut, storage_init_outcome}

-- A partition of 10 KiB at 0x1000, and fields of 16 bits.
abbrev small : Config
small = record { partition_offset = 4096; partition_size = 10240; size_bits = 16; count_bits = 16 }

-- A flash with pages of the given size.
abbrev flash : ℕ → Env Call Answer
flash page past device_is_ready = record { ret = pos 1; size = 0 }
flash page past (flash_get_page_info_by_offs offs) = record { ret = pos 0; size = page }
flash page past c = record { ret = pos 0; size = 0 }

abbrev unmounted : NvsFs
unmounted = record { offset = 0; sector_size = 0; sector_count = 0; trace = [] }

storage_init_outcome_example :
    (r : ℤ) × (fs' : NvsFs) × (storage_init small (flash 4096) unmounted ≡ some (r, fs'))
    × ((mounts fs'.trace ≡ []) × (is_zero r ≡ false)
        ⊎ ((s : Store) × (mounts fs'.trace ≡ s ∷ []) × IsLaidOut small 4096 s))
storage_init_outcome_example =
    storage_init_outcome small (flash 4096) unmounted
      (record { positive = omega arith; size_fits = omega arith; count_fits = omega arith })

-- A page of 128 KiB leaves a sector size of 0 in a field of 16 bits, and the count divides by it.
big_page : storage_init small (flash 131072) unmounted ≡ none
unfolding storage_init mount
big_page = refl
