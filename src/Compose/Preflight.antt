-- ===== src/Compose/Preflight.antt =====
-- The rules of api/internal/compose/preflight.go over the views, and PreflightBytes. The messages of the
-- findings and of the errors are left out.
use vac.Compose.Tables.{
  Finding, Severity, image_base_name, image_repo, is_edge_port, is_one_of, is_positive,
  volume_exposes_docker_socket, volume_is_docker_socket, Code, code_text, daemon_image_needles,
  dangerous_caps, proxy_image_bases, severity_error, severity_warn, bundled_reverse_proxy,
  edge_port_conflict, no_routable_http, docker_socket_mount, host_port_publish,
  privileged_or_host_net, fixed_container_name, lifecycle_daemon,
}
use vac.Compose.Strings.{
  before, contains_text, join, trim_right, to_lower, to_upper, trim_left, has_prefix, text_less,
  trim_space,
}
use vac.Prelude.{
  Bool, List, Text, ℤ, ◌++◌, Option, [], any, ascii, if◌then◌else◌, is_nat, not, pos, true, ◌⊎◌,
  some, ◌∷◌, ◌&&◌, false, texts_eq, ◌||◌, inl, none, inr, map, keep, sort,
}
use vac.Compose.{Fields, Value, field, mapping, no_field}
use vac.Compose.Views.{PreflightView, PortMapping, view, get, atoi_first}

unfoldable pub has_port_target : PreflightView → Bool
has_port_target v = any (λ p. is_positive p.target) v.ports

unfoldable pub binds_edge_port : PreflightView → Bool
binds_edge_port v = any (λ p. is_edge_port p.host) v.ports

unfoldable pub has_traefik_label : PreflightView → Bool
has_traefik_label v = any (λ l. has_prefix l.0 (ascii "traefik.")) v.labels

abbrev first_target : List PortMapping → ℤ
first_target [] = pos 0
first_target (p ∷ ps) = if is_positive p.target then p.target else first_target ps

abbrev first_expose : List Text → List PortMapping → ℤ
first_expose [] ps = first_target ps
first_expose (e ∷ es) ps =
    let n = atoi_first (before b'/' e) in
    let rest = first_expose es ps in if is_positive n then n else rest

-- 0 where the service declares neither an exposed port nor a target.
unfoldable pub routable_port : PreflightView → ℤ
unfolding before atoi_first
routable_port v = first_expose v.expose v.ports

-- One finding of the service, or none.
abbrev pub one_if : Bool → Finding → List Finding
one_if b f = if b then f ∷ [] else []

abbrev pub add : Severity → Code → PreflightView → Finding
add s c v = record { severity = s; code = c; service = v.name }

abbrev pub port_finding : PreflightView → PortMapping → List Finding
port_finding v p =
    if is_nat p.host 0
    then []
    else if is_edge_port p.host
    then add severity_error edge_port_conflict v ∷ []
    else add severity_warn host_port_publish v ∷ []

abbrev pub port_findings : PreflightView → List PortMapping → List Finding
port_findings v [] = []
port_findings v (p ∷ ps) = port_finding v p ++ port_findings v ps

unfoldable pub is_proxy : PreflightView → Bool
unfolding image_base_name join contains_text binds_edge_port has_traefik_label
is_proxy v =
    let base = image_base_name v.image in
    let cmd = join (ascii " ") v.command in
    is_one_of proxy_image_bases base
    || has_traefik_label v
    || (contains_text cmd (ascii "--certificatesresolvers")
        || contains_text cmd (ascii "--entrypoints"))
    || (texts_eq base (ascii "nginx") && (binds_edge_port v || has_traefik_label v))

abbrev pub cap_name : Text → Text
cap_name c = to_upper (trim_space c)

abbrev pub disables_confinement : Text → Bool
disables_confinement so =
    let s = to_lower (trim_space so) in
    contains_text s (ascii "unconfined")
    || contains_text s (ascii "seccomp=unconfined")
    || contains_text s (ascii "apparmor=unconfined")
    || contains_text s (ascii "label:disable")

-- The texts of the privileges that a service asks for, in the order of the source.
unfoldable pub escalations : PreflightView → List Text
unfolding trim_right trim_left contains_text
escalations v =
    (if v.privileged then ascii "privileged: true" ∷ [] else [])
    ++ ((if texts_eq v.network_mode (ascii "host") then ascii "network_mode: host" ∷ [] else [])
        ++ ((if texts_eq v.pid_mode (ascii "host") then ascii "pid: host" ∷ [] else [])
            ++ ((if texts_eq v.userns_mode (ascii "host")
                  then ascii "userns_mode: host" ∷ []
                  else [])
                ++ (map (λ c. ascii "cap_add: " ++ cap_name c)
                      (keep (λ c. is_one_of dangerous_caps (cap_name c)) v.cap_add)
                    ++ map (λ s. ascii "security_opt: " ++ trim_space s)
                        (keep disables_confinement v.security_opt)))))

abbrev pub is_empty {ℓ} : {A : Type ℓ} → List A → Bool
is_empty [] = true
is_empty (x ∷ xs) = false

unfoldable pub is_lifecycle_daemon : PreflightView → Bool
unfolding image_repo contains_text
is_lifecycle_daemon v =
    any (contains_text (image_repo v.image)) daemon_image_needles
    || any (λ l. has_prefix l.0 (ascii "com.centurylinklabs.watchtower")) v.labels

-- Every rule over one service.
unfoldable pub findings : PreflightView → List Finding
unfolding is_proxy volume_exposes_docker_socket escalations is_lifecycle_daemon
findings v =
    port_findings v v.ports
    ++ (one_if (is_proxy v) (add severity_error bundled_reverse_proxy v)
        ++ (one_if (any volume_exposes_docker_socket v.volumes)
              (add severity_error docker_socket_mount v)
            ++ (one_if (not (is_empty (escalations v)))
                  (add severity_error privileged_or_host_net v)
                ++ (one_if (not (is_empty v.container_name))
                      (add severity_warn fixed_container_name v)
                    ++ one_if (is_lifecycle_daemon v) (add severity_warn lifecycle_daemon v)))))

abbrev pub all_findings : List PreflightView → List Finding
all_findings [] = []
all_findings (v ∷ vs) = findings v ++ all_findings vs

abbrev pub stack_findings : List PreflightView → List Finding
stack_findings vs =
    one_if (not (is_empty vs) && not (any (λ v. not (is_empty v.expose) || has_port_target v) vs))
      (record { severity = severity_warn; code = no_routable_http; service = [] })

abbrev pub finding_less : Finding → Finding → Bool
finding_less f g =
    if not (texts_eq f.service g.service)
    then text_less f.service g.service
    else text_less (code_text f.code) (code_text g.code)

pub data ParseError : Type 0 where
  not_yaml : ParseError
  no_services : ParseError

abbrev views_of : Fields → List PreflightView
views_of no_field = []
views_of (field n body fs) = view n body ∷ views_of fs

-- A services entry that is no map is an error, and an absent one too.
abbrev pub services_of : Value → ParseError ⊎ List PreflightView
services_of (mapping services) = inr (sort (λ v w. text_less v.name w.name) (views_of services))
services_of _ = inl no_services

abbrev pub report : ParseError ⊎ List PreflightView → ParseError ⊎ List Finding
report (inl e) = inl e
report (inr vs) = inr (sort finding_less (all_findings vs ++ stack_findings vs))

abbrev exposed_ports : ParseError ⊎ List PreflightView → ParseError ⊎ List (Text × ℤ)
exposed_ports (inl e) = inl e
exposed_ports (inr vs) =
    inr (map (λ v. (v.name, routable_port v)) (keep (λ v. is_positive (routable_port v)) vs))

abbrev holds_data : PreflightView → Bool
holds_data v = any (λ volume. not (volume_is_docker_socket volume)) v.volumes

abbrev with_volumes : ParseError ⊎ List PreflightView → ParseError ⊎ List Text
with_volumes (inl e) = inl e
with_volumes (inr vs) = inr (map (λ v. v.name) (keep holds_data vs))

module _ (unmarshal : Text → Option Fields) where
  unfoldable pub parse_preflight_bytes : Text → ParseError ⊎ List PreflightView
  unfolding view get text_less
  parse_preflight_bytes raw = elim (unmarshal raw) [
    | none ↦ inl not_yaml
    | some doc ↦ services_of (get (ascii "services") doc)
  ]

  unfoldable pub preflight_bytes : Text → ParseError ⊎ List Finding
  unfolding parse_preflight_bytes findings
  preflight_bytes raw = report (parse_preflight_bytes raw)

  -- The port of each service to which VAC routes when the host publishes nothing.
  unfoldable pub service_exposed_ports : Text → ParseError ⊎ List (Text × ℤ)
  unfolding parse_preflight_bytes routable_port
  service_exposed_ports raw = exposed_ports (parse_preflight_bytes raw)

  -- The services with a volume other than the Docker socket.
  unfoldable pub services_with_volumes : Text → ParseError ⊎ List Text
  unfolding parse_preflight_bytes volume_is_docker_socket
  services_with_volumes raw = with_volumes (parse_preflight_bytes raw)
