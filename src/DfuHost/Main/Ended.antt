-- ===== src/DfuHost/Main/Ended.antt =====
-- How a run of host-dfu-app/dfu_host.c ends, whatever its arguments, the files and libusb are.
use Prim.Native.String.{String}
use zephyr_development.Prelude.{
  ℕ, ◌||◌, ◌≡◌, ◌⊎◌, ◌∙◌, refl, sym, subst, ap, inl, inr, true, false, Option, none, some, List,
  ◌++◌, append-nil, is_count, ◌==◌, length, Bool-cases, Option-cases, arith,
}
use zephyr_development.Host.Download.{requests}
use zephyr_development.Host.Sent.{packets}
use zephyr_development.DfuHost.{Args, LibusbEnv, chunk_size, parse_args, run_update}
use zephyr_development.DfuHost.Wire.{wire, acked, wire-run_update}
use zephyr_development.DfuHost.Release.{held, nothing, fresh, run_update_releases}
use zephyr_development.DfuHost.Main.{
  File, Process, at_start, read_firmware, update_and_free, main_with, main,
}

-- `strtoul` in base 16, and `fopen`: none for NULL.
module _ (strtoul : String → ℕ) (fopen : String → Option File) (env : LibusbEnv) where
  -- The arguments name a file that could be read whole, and START, its chunks and
  -- END were handed to the device, nothing else, and each was taken whole and acknowledged.
  pub record Uploaded (argv : List String) (p : Process) : Type 0 where
    pub args : Args
    pub path : String
    pub file : File
    pub parsed : parse_args strtoul argv (record { fw_path = none; vid = 0; pid = 0 }) ≡ some args
    pub named : args.fw_path ≡ some path
    pub found : fopen path ≡ some file
    pub whole : is_count file.ftell (length file.fread) ≡ true
    pub sent : wire p.usb.trace ≡ packets (requests chunk_size file.fread)
    pub acknowledged : acked p.usb.trace ≡ packets (requests chunk_size file.fread)

  -- A run that ends with status 0 or 1, with nothing held, and with 0 only after an upload.
  abbrev pub IsEnded : List String → Option ℕ × Process → Type 0
  IsEnded argv r =
      (status : ℕ) × (r.0 ≡ some status)
      × (held r.1.usb.trace ≡ nothing)
      × (r.1.files ≡ 0)
      × (r.1.blocks ≡ 0)
      × ((status ≡ 0) × Uploaded argv r.1 ⊎ (status ≡ 1))

  refused : (argv : List String) → IsEnded argv (some 1, at_start)
  refused argv = (1, refl, refl, refl, refl, inr refl)

  read_firmware_lem :
      (path : String)
      → ((read_firmware strtoul fopen env path at_start).0 ≡ none)
          × ((read_firmware strtoul fopen env path at_start).1 ≡ at_start)
        ⊎ ((f : File) × (fopen path ≡ some f)
            × (is_count f.ftell (length f.fread) ≡ true)
            × ((read_firmware strtoul fopen env path at_start).0 ≡ some f.fread)
            × ((read_firmware strtoul fopen env path at_start).1 ≡ record at_start { blocks = 1 }))
  unfolding read_firmware
  read_firmware_lem path = elim (Option-cases (fopen path)) [
    | inl e ↦ rw (e, read_firmware) (inl (refl, refl))
    | inr (f, e) ↦ elim (Bool-cases f.malloc) [
      | inr m ↦ rw (e, m, read_firmware) (inl (refl, refl))
      | inl m ↦ elim (Bool-cases (is_count f.ftell (length f.fread))) [
        | inr c ↦ inl (ground (arith, e, m, c), ground (arith, e, m, c))
        | inl c ↦ inr (f, e, c, ground (arith, e, m, c), ground (arith, e, m, c))
      ]
    ]
  ]

  -- The four ways through `main` after its arguments.
  main_with_no_path :
      (a : Args) (p : Process)
      → a.fw_path ≡ none
      → main_with strtoul fopen env (some a) p ≡ (some 1, p)
  unfolding main_with
  main_with_no_path a p e = ground (arith, e)

  main_with_no_id :
      (a : Args) (path : String) (p : Process)
      → a.fw_path ≡ some path
      → (a.vid == 0 || a.pid == 0) ≡ true
      → main_with strtoul fopen env (some a) p ≡ (some 1, p)
  unfolding main_with
  main_with_no_id a path p e z = ground (arith, e, z)

  main_with_unread :
      (a : Args) (path : String) (p : Process)
      → a.fw_path ≡ some path
      → (a.vid == 0 || a.pid == 0) ≡ false
      → (read_firmware strtoul fopen env path p).0 ≡ none
      → main_with strtoul fopen env (some a) p
        ≡ (some 1, (read_firmware strtoul fopen env path p).1)
  unfolding main_with
  main_with_unread a path p e z r = ground (arith, e, z, r)

  main_with_read :
      (a : Args) (path : String) (fw : List ℕ) (p : Process)
      → a.fw_path ≡ some path
      → (a.vid == 0 || a.pid == 0) ≡ false
      → (read_firmware strtoul fopen env path p).0 ≡ some fw
      → main_with strtoul fopen env (some a) p
        ≡ update_and_free strtoul fopen env a.vid a.pid fw
            (read_firmware strtoul fopen env path p).1
  unfolding main_with
  main_with_read a path fw p e z r = ground (arith, e, z, r)

  updated :
      (argv : List String) (a : Args) (path : String) (f : File)
      → parse_args strtoul argv (record { fw_path = none; vid = 0; pid = 0 }) ≡ some a
      → a.fw_path ≡ some path
      → fopen path ≡ some f
      → is_count f.ftell (length f.fread) ≡ true
      → IsEnded argv
          (update_and_free strtoul fopen env a.vid a.pid f.fread (record at_start { blocks = 1 }))
  unfolding update_and_free
  updated argv a path f parsed named found whole =
      let (status, unsent, unacked, e, w, k, c) = wire-run_update env a.vid a.pid f.fread fresh in
      let rel = run_update_releases env a.vid a.pid f.fread in
      let run = run_update env a.vid a.pid f.fread fresh in
      elim c [
        | inr (one, left) ↦ (status, e, rel, refl, refl, inr one)
        | inl (zero, all, every) ↦ (
          status,
          e,
          rel,
          refl,
          refl,
          inl (
            zero,
            record {
              args = a;
              path = path;
              file = f;
              parsed = parsed;
              named = named;
              found = found;
              whole = whole;
              sent =
                  sym (append-nil (wire run.1.trace))
                  ∙ ap (λ u. wire run.1.trace ++ u) (sym all)
                  ∙ w;
              acknowledged =
                  sym (append-nil (acked run.1.trace))
                  ∙ ap (λ u. acked run.1.trace ++ u) (sym every)
                  ∙ k;
            },
          ),
        )
      ]

  main_with-IsEnded :
      (argv : List String) (a : Args)
      → parse_args strtoul argv (record { fw_path = none; vid = 0; pid = 0 }) ≡ some a
      → IsEnded argv (main_with strtoul fopen env (some a) at_start)
  main_with-IsEnded argv a parsed = elim (Option-cases a.fw_path) [
    | inl e ↦ subst (IsEnded argv) (sym (main_with_no_path a at_start e)) (refused argv)
    | inr (path, e) ↦ elim (Bool-cases (a.vid == 0 || a.pid == 0)) [
      | inl z ↦ subst (IsEnded argv) (sym (main_with_no_id a path at_start e z)) (refused argv)
      | inr z ↦ elim (read_firmware_lem path) [
        | inl (r, same) ↦
            subst (IsEnded argv) (sym (main_with_unread a path at_start e z r))
              (subst (λ p. IsEnded argv (some 1, p)) (sym same) (refused argv))
        | inr (f, found, whole, r, left) ↦
            subst (IsEnded argv) (sym (main_with_read a path f.fread at_start e z r)) (
              subst (λ p. IsEnded argv (update_and_free strtoul fopen env a.vid a.pid f.fread p))
                (sym left) (updated argv a path f parsed e found whole))
      ]
    ]
  ]

  -- On any arguments, files and answers of libusb, if every libusb call returns, the USB tool ends
  -- with status 0 or 1, with no libusb resource held, no file open and no block kept; with status
  -- 0 its arguments name a file that was read whole, and START, the chunks of that file and END
  -- were handed to the device and nothing else, and each was taken whole and acknowledged.
  pub main-IsEnded : (argv : List String) → IsEnded argv (main strtoul fopen env argv at_start)
  unfolding main main_with
  main-IsEnded argv =
      let defaults : Args = record { fw_path = none; vid = 0; pid = 0 } in
      elim (Option-cases (parse_args strtoul argv defaults)) [
        | inl e ↦
            subst (λ a. IsEnded argv (main_with strtoul fopen env a at_start)) (sym e)
              (refused argv)
        | inr (a, e) ↦
            subst (λ o. IsEnded argv (main_with strtoul fopen env o at_start)) (sym e)
              (main_with-IsEnded argv a e)
      ]
