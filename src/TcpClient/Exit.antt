-- ===== src/TcpClient/Exit.antt =====
-- The exit status of host-dfu-app/tcp_client.c.
use Prim.Native.String.{String}
use zephyr_development.Prelude.{ℕ, some, Option, none, List, is_zero, if◌then◌else◌}
use zephyr_development.TcpClient.{Args, File, loaded}

-- What the command line and the file system have to give before the tool connects.
abbrev pub ready : (String → Option (List ℕ)) → Args → Option (List ℕ × String)
ready file a = elim a.fw_path [
  | none ↦ none
  | some path ↦ elim a.ip [
    | none ↦ none
    | some ip ↦
        if is_zero a.port then none else elim (file path) [ none ↦ none | some fw ↦ some (fw, ip) ]
  ]
]

-- The block that the tool sends of a file.
abbrev pub contents : (String → Option File) → String → Option (List ℕ)
contents fopen path = elim (fopen path) [ none ↦ none | some f ↦ some (loaded f) ]
