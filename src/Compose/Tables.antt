-- ===== src/Compose/Tables.antt =====
-- The findings of api/internal/compose/preflight.go, its matcher tables, and its readings of a volume entry
-- and of an image reference.
use vac.Compose.Strings.{
  before, cut_last, has_suffix, contains_text, trim_right, trim_left, trim_space,
}
use vac.Prelude.{
  Bool, List, Text, ℤ, any, ascii, is_nat, true, some, pos, false, ltb, texts_eq, ◌||◌, ◌∷◌, none,
  ◌==◌, [], if◌then◌else◌, negsuc,
}

pub data Severity : Type 0 where
  severity_warn : Severity
  severity_error : Severity

pub data Code : Type 0 where
  edge_port_conflict : Code
  bundled_reverse_proxy : Code
  docker_socket_mount : Code
  privileged_or_host_net : Code
  host_port_publish : Code
  fixed_container_name : Code
  lifecycle_daemon : Code
  no_routable_http : Code

abbrev pub code_text : Code → Text
code_text edge_port_conflict = ascii "edge_port_conflict"
code_text bundled_reverse_proxy = ascii "bundled_reverse_proxy"
code_text docker_socket_mount = ascii "docker_socket_mount"
code_text privileged_or_host_net = ascii "privileged_or_host_net"
code_text host_port_publish = ascii "host_port_publish"
code_text fixed_container_name = ascii "fixed_container_name"
code_text lifecycle_daemon = ascii "lifecycle_daemon"
code_text no_routable_http = ascii "no_routable_http"

pub record Finding : Type 0 where
  pub severity : Severity
  pub code : Code
  pub service : Text

abbrev pub is_host_escape_code : Code → Bool
is_host_escape_code docker_socket_mount = true
is_host_escape_code privileged_or_host_net = true
is_host_escape_code _ = false

abbrev pub is_host_escape : Finding → Bool
is_host_escape f = is_host_escape_code f.code

abbrev pub is_one_of : List Text → Text → Bool
is_one_of ts s = any (λ t. texts_eq t s) ts

abbrev pub proxy_image_bases : List Text
proxy_image_bases = ascii "traefik" ∷ ascii "caddy" ∷ []

abbrev pub daemon_image_needles : List Text
daemon_image_needles = ascii "watchtower" ∷ ascii "ouroboros" ∷ []

abbrev pub dangerous_caps : List Text
dangerous_caps =
    ascii "ALL"
    ∷ ascii "SYS_ADMIN"
    ∷ ascii "SYS_MODULE"
    ∷ ascii "SYS_PTRACE"
    ∷ ascii "SYS_RAWIO"
    ∷ ascii "SYS_BOOT"
    ∷ ascii "DAC_READ_SEARCH"
    ∷ ascii "DAC_OVERRIDE"
    ∷ ascii "BPF"
    ∷ []

abbrev pub is_edge_port : ℤ → Bool
is_edge_port p = is_nat p 80 || is_nat p 443

abbrev pub is_positive : ℤ → Bool
is_positive (pos n) = ltb 0 n
is_positive (negsuc n) = false

-- The source of a volume entry, before its first colon.
abbrev pub source_of : Text → Text
source_of volume = before b':' volume

unfoldable pub volume_is_docker_socket : Text → Bool
unfolding has_suffix trim_right trim_left
volume_is_docker_socket volume = has_suffix (trim_space (source_of volume)) (ascii "docker.sock")

abbrev pub or_root : Text → Text
or_root [] = ascii "/"
or_root (c ∷ cs) = c ∷ cs

unfoldable pub volume_exposes_docker_socket : Text → Bool
unfolding has_suffix trim_right trim_left
volume_exposes_docker_socket volume =
    let src = or_root (trim_right (λ c. c == b'/') (trim_space (source_of volume))) in
    if has_suffix src (ascii "docker.sock")
    then true
    else is_one_of (ascii "/" ∷ ascii "/run" ∷ ascii "/var" ∷ ascii "/var/run" ∷ []) src

-- The tag is what stands behind the last colon, unless a slash follows it.
abbrev pub without_tag : Text → Text
without_tag s = elim (cut_last b':' s) [
  | none ↦ s
  | some (left, right) ↦ if contains_text right (ascii "/") then s else left
]

unfoldable pub image_repo : Text → Text
unfolding before cut_last contains_text
image_repo image = without_tag (before b'@' image)

unfoldable pub image_base_name : Text → Text
unfolding image_repo cut_last
image_base_name image = elim (cut_last b'/' (image_repo image)) [
  | some (left, right) ↦ right
  | none ↦ image_repo image
]
