-- ===== src/Compose/Tests.antt =====
-- The preflight of the sample stack.
use vac.Compose.Samples.{agent, database, stack}
use vac.Compose.Host.{IsEscape, EscapesHost}
use vac.Prelude.{List, [], ascii, ◌≡◌, false, inr, pos, refl, In, ◌↔◌, ◌∷◌, cut, strip_prefix}
use vac.Compose.Views.{view, parse_port_string, PreflightView, bare}
use vac.Compose.Tables.{
  Finding, image_base_name, volume_exposes_docker_socket, severity_error, docker_socket_mount,
  severity_warn, host_port_publish,
}
use vac.Compose.Preflight.{preflight_bytes, parse_preflight_bytes, escalations}
use vac.Compose.Escapes.{preflight_bytes-EscapesHost}
use vac.Compose.Host.{IsEscape, EscapesHost}
use vac.Compose.Strings.{trim_right, trim_left, before}
use vac.Compose.Preflight.{has_port_target}

base_name : image_base_name (ascii "registry:5000/library/postgres:16@sha256:ab") ≡ ascii "postgres"
unfolding image_base_name strip_prefix
base_name = refl

port_out_of_range :
    parse_port_string (ascii "99999999999999999999x:80")
    ≡ record { host = pos 9223372036854775807; target = pos 80; proto = [] }
unfolding parse_port_string cut trim_right trim_left
port_out_of_range = refl

-- A spelling of the socket's directory that is not its shortest passes.
dot_segment : volume_exposes_docker_socket (ascii "/var/run/.:/host") ≡ false
unfolding volume_exposes_docker_socket before
dot_segment = refl

agent_reported :
    preflight_bytes stack []
    ≡ inr (
        record { severity = severity_error; code = docker_socket_mount; service = ascii "agent" }
        ∷ record { severity = severity_warn; code = host_port_publish; service = ascii "agent" }
        ∷ [])
unfolding preflight_bytes cut strip_prefix has_port_target
agent_reported = refl

preflight_bytes-EscapesHost_example :
    (fs : List Finding) × (preflight_bytes stack [] ≡ inr fs)
    × (((f : Finding) × (In f fs × IsEscape (ascii "agent") f)) ↔ (
        (v : PreflightView) × (In v (view (ascii "agent") agent ∷ view (ascii "db") database ∷ [])
          × ((v.name ≡ ascii "agent") × EscapesHost v))))
unfolding parse_preflight_bytes
preflight_bytes-EscapesHost_example =
    preflight_bytes-EscapesHost stack [] (ascii "agent")
      (view (ascii "agent") agent ∷ view (ascii "db") database ∷ []) refl

-- A capability under its prefixed name passes.
cap_prefix : escalations (record (bare (ascii "db")) { cap_add = ascii "CAP_SYS_ADMIN" ∷ [] }) ≡ []
unfolding escalations
cap_prefix = refl

cap_found :
    escalations (record (bare (ascii "db")) { cap_add = ascii " sys_admin" ∷ [] })
    ≡ ascii "cap_add: SYS_ADMIN" ∷ []
unfolding escalations
cap_found = refl
