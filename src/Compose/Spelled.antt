-- ===== src/Compose/Spelled.antt =====
-- What api/internal/compose/preflight.go takes for a way to the host, as it is spelled.
use vac.Compose.Strings.{trim_right, trim_space, before}
use vac.Prelude.{List, Text, ascii, ◌∷◌, [], ◌==◌}

-- The capabilities that open the host. A capability is read without the blanks around it and in upper case.
abbrev pub host_caps : List Text
host_caps =
    ascii "ALL"
    ∷ ascii "SYS_ADMIN"
    ∷ ascii "SYS_MODULE"
    ∷ ascii "SYS_PTRACE"
    ∷ ascii "SYS_RAWIO"
    ∷ ascii "SYS_BOOT"
    ∷ ascii "DAC_READ_SEARCH"
    ∷ ascii "DAC_OVERRIDE"
    ∷ ascii "BPF"
    ∷ []

-- What a security option says, in any case, when it turns a confinement off.
abbrev pub off_switches : List Text
off_switches =
    ascii "unconfined"
    ∷ ascii "seccomp=unconfined"
    ∷ ascii "apparmor=unconfined"
    ∷ ascii "label:disable"
    ∷ []

-- The directories above the socket, as they are spelled; the root is empty without its slash.
abbrev pub spelled_dirs : List Text
spelled_dirs = ascii "/" ∷ ascii "/run" ∷ ascii "/var" ∷ ascii "/var/run" ∷ []

abbrev pub socket_dirs : List Text
socket_dirs = [] ∷ spelled_dirs

-- The host's side of a volume: before the first colon, without blanks around it and slashes at its end.
abbrev pub host_side : Text → Text
host_side volume = trim_right (λ c. c == b'/') (trim_space (before b':' volume))
