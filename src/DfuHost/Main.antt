-- ===== src/DfuHost/Main.antt =====
-- `main` of host-dfu-app/dfu_host.c from its arguments on: the firmware file, and what is given back at the end.
pub mod Ended
use Prim.Native.String.{String}
use zephyr_development.Prelude.{
  ℕ, ◌+◌, ◌-◌, ◌||◌, not, ◌≡◌, ◌⊎◌, ◌∙◌, refl, sym, subst, ap, inl, inr, Bool, true, false, Option,
  none, some, List, [], ◌∷◌, ◌++◌, append-nil, ℤ, is_count, Io, ◌==◌, if◌then◌else◌, length,
  Bool-cases, Option-cases, arith,
}
use zephyr_development.Host.Download.{requests}
use zephyr_development.Host.Sent.{packets}
use zephyr_development.DfuHost.{Args, Globals, LibusbEnv, chunk_size, parse_args, run_update}
use zephyr_development.DfuHost.Wire.{wire, wire-run_update}
use zephyr_development.DfuHost.Release.{held, nothing, fresh, run_update_releases}

-- What the C library says of a file: the answer of `ftell` at its end, whether `malloc` gives a block of that
-- size, and the bytes that `fread` gets.
pub record File : Type 0 where
  pub ftell : ℤ
  pub malloc : Bool
  pub fread : List ℕ

-- The process: libusb's part, and the numbers of open files and of blocks not freed.
pub record Process : Type 0 where
  pub usb : Globals
  pub files : ℕ
  pub blocks : ℕ

abbrev pub at_start : Process
at_start = record { usb = fresh; files = 0; blocks = 0 }

-- `strtoul` in base 16, and `fopen`: none for NULL.
module _ (strtoul : String → ℕ) (fopen : String → Option File) (env : LibusbEnv) where
  -- The file read whole into a block, or nothing kept.
  unfoldable pub read_firmware : String → Io Process (Option (List ℕ))
  read_firmware path p = elim (fopen path) [
    | none ↦ (none, p)
    | some f ↦
        let opened = record p { files = p.files + 1 } in
        let taken = record opened { blocks = opened.blocks + 1 } in
        let freed = record taken { blocks = taken.blocks - 1 } in
        if not f.malloc
        then (none, record opened { files = opened.files - 1 })
        else if not (is_count f.ftell (length f.fread))
        then (none, record freed { files = freed.files - 1 })
        else (some f.fread, record taken { files = taken.files - 1 })
  ]

  -- With the firmware in its block: the update, and the block freed at the end on each path.
  unfoldable pub update_and_free : ℕ → ℕ → List ℕ → Io Process (Option ℕ)
  update_and_free vid pid fw p =
      let run = run_update env vid pid fw p.usb in
      (run.0, record p { usb = run.1; blocks = p.blocks - 1 })

  -- From the arguments: none is a usage error.
  unfoldable pub main_with : Option Args → Io Process (Option ℕ)
  main_with none p = (some 1, p)
  main_with (some a) p = elim a.fw_path [
    | none ↦ (some 1, p)
    | some path ↦
        let got = read_firmware path p in
        if a.vid == 0 || a.pid == 0
        then (some 1, p)
        else elim got.0 [ none ↦ (some 1, got.1) | some fw ↦ update_and_free a.vid a.pid fw got.1 ]
  ]

  -- `argv` without the program's name. A result `none` would be a loop that does not end.
  unfoldable pub main : List String → Io Process (Option ℕ)
  unfolding main_with
  main argv p = main_with (parse_args strtoul argv (record { fw_path = none; vid = 0; pid = 0 })) p
