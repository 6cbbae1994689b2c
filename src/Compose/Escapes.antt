-- ===== src/Compose/Escapes.antt =====
-- What PreflightBytes of api/internal/compose/preflight.go reports of the services that reach for the host.
use vac.Compose.Host.{
  EscapesHost, IsEscape, reaches-EscapesHost, asks, escalations-asks, EscapesHost-reaches,
}
use vac.Prelude.{
  Bool, List, Text, not, ◌≡◌, ◌++◌, In, true, ◌∷◌, false, [], any, subst, refl, Bool-cases, inl,
  inr, All, ||-elim, ||-left, All-append, is_nat, ||-second, sym, ◌∙◌, All-In, In-append-cases,
  In-append-left, Option, In-append-right, sort, ◌↔◌, sort-In, In-sort,
}
use vac.Compose.{Fields}
use vac.Compose.Views.{PreflightView, PortMapping}
use vac.Compose.Tables.{
  Finding, severity_error, is_host_escape, volume_exposes_docker_socket, is_edge_port,
  privileged_or_host_net, docker_socket_mount,
}
use vac.Compose.Preflight.{
  findings, escalations, port_finding, port_findings, all_findings, stack_findings,
  parse_preflight_bytes, preflight_bytes, finding_less, one_if, is_empty, is_proxy, add,
}

-- Each finding of a service carries its name, and one that no operator can wave through is an error
-- that the service earns.
abbrev Earned : PreflightView → Finding → Type 0
Earned v f =
    (f.service ≡ v.name) × (is_host_escape f ≡ true → (f.severity ≡ severity_error) × EscapesHost v)

All-one_if : (P : Finding → Type 0) (b : Bool) (a : Finding) → (b ≡ true → P a) → All P (one_if b a)
All-one_if P true a h = (h refl, tt)
All-one_if P false a h = tt

In-one_if : (b : Bool) (a : Finding) → b ≡ true → In a (one_if b a)
In-one_if b a h = rw h (inl refl)

port_finding-Earned : (v : PreflightView) (p : PortMapping) → All (Earned v) (port_finding v p)
port_finding-Earned v p = elim (Bool-cases (is_nat p.host 0)) [
  | inl z ↦ rw z tt
  | inr n ↦ elim (Bool-cases (is_edge_port p.host)) [
    | inl y ↦ rw (n, y) ((refl, λ h. absurd cc), tt)
    | inr k ↦ rw (n, k) ((refl, λ h. absurd cc), tt)
  ]
]

port_findings-Earned :
    (v : PreflightView) (ps : List PortMapping) → All (Earned v) (port_findings v ps)
port_findings-Earned v [] = tt
port_findings-Earned v (p ∷ ps) =
    All-append (Earned v) (port_finding v p) _ (port_finding-Earned v p) (port_findings-Earned v ps)

findings-Earned : (v : PreflightView) → All (Earned v) (findings v)
unfolding findings
findings-Earned v =
    All-append (Earned v) (port_findings v v.ports) _ (port_findings-Earned v v.ports) (
      All-append (Earned v) (one_if (is_proxy v) _) _
        (All-one_if (Earned v) _ _ (λ h. (refl, λ h. absurd cc)))
        (All-append (Earned v) (one_if (any volume_exposes_docker_socket v.volumes) _) _
          (All-one_if (Earned v) _ _
            (λ h. (refl, λ _. (refl, reaches-EscapesHost v (||-second (asks v) _ h)))))
          (All-append (Earned v) (one_if (not (is_empty (escalations v))) _) _
            (All-one_if (Earned v) _ _ (λ h. (
              refl,
              λ _.
                  (refl, reaches-EscapesHost v (||-left (asks v) _ (sym (escalations-asks v) ∙ h))),
            )))
            (All-append (Earned v) (one_if (not (is_empty v.container_name)) _) _
              (All-one_if (Earned v) _ _ (λ h. (refl, λ h. absurd cc)))
              (All-one_if (Earned v) _ _ (λ h. (refl, λ h. absurd cc)))))))

-- A service that reaches for the host has a finding that says so.
EscapesHost-found :
    (v : PreflightView) → EscapesHost v → (f : Finding) × (In f (findings v) × IsEscape v.name f)
unfolding findings
EscapesHost-found v e =
    ||-elim (asks v) (any volume_exposes_docker_socket v.volumes)
      (λ h. (
        add severity_error privileged_or_host_net v,
        (
          In-append-right _ (port_findings v v.ports) _ (
              In-append-right _ (one_if (is_proxy v) _) _ (
                In-append-right _ (one_if (any volume_exposes_docker_socket v.volumes) _) _
                  (In-append-left _ _ _ (In-one_if _ _ (escalations-asks v ∙ h))))),
          (refl, (refl, refl)),
        ),
      ))
      (λ h. (
        add severity_error docker_socket_mount v,
        (
          In-append-right _ (port_findings v v.ports) _ (
              In-append-right _ (one_if (is_proxy v) _) _ (In-append-left _ _ _ (In-one_if _ _ h))),
          (refl, (refl, refl)),
        ),
      ))
      (EscapesHost-reaches v e)

In-all_findings :
    (v : PreflightView) (f : Finding) (vs : List PreflightView)
    → In v vs
    → In f (findings v)
    → In f (all_findings vs)
In-all_findings v f [] m k = elim m [ ]
In-all_findings v f (w ∷ vs) (inl e) k =
    In-append-left f (findings w) _ (subst (λ u. In f (findings u)) e k)
In-all_findings v f (w ∷ vs) (inr m) k =
    In-append-right f (findings w) _ (In-all_findings v f vs m k)

all_findings-In :
    (f : Finding) (vs : List PreflightView)
    → In f (all_findings vs)
    → (v : PreflightView) × (In v vs × In f (findings v))
all_findings-In f [] m = elim m [ ]
all_findings-In f (w ∷ vs) m = elim (In-append-cases f (findings w) _ m) [
  | inl l ↦ (w, (inl refl, l))
  | inr r ↦ let rest = all_findings-In f vs r in (rest.0, (inr rest.1.0, rest.1.1))
]

stack_findings-soft :
    (f : Finding) (vs : List PreflightView) → In f (stack_findings vs) → is_host_escape f ≡ false
stack_findings-soft f vs m =
    All-In (λ f. is_host_escape f ≡ false) (stack_findings vs) (All-one_if _ _ _ (λ h. refl)) m

-- A finding of the stack that no operator can wave through comes from such a service.
found-EscapesHost :
    (f : Finding) (name : Text) (vs : List PreflightView)
    → is_host_escape f ≡ true
    → f.service ≡ name
    → In f (all_findings vs ++ stack_findings vs)
    → (v : PreflightView) × (In v vs × ((v.name ≡ name) × EscapesHost v))
found-EscapesHost f name vs h n m = elim (In-append-cases f (all_findings vs) _ m) [
  | inl l ↦
      let at = all_findings-In f vs l in
      let earned = All-In (Earned at.0) (findings at.0) (findings-Earned at.0) at.1.1 in
      (at.0, (at.1.0, (sym earned.0 ∙ n, (earned.1 h).1)))
  | inr r ↦ absurd (let soft = stack_findings-soft f vs r in cc)
]

module _ (unmarshal : Text → Option Fields) where
  preflight_bytes-sort :
      (raw : Text) (vs : List PreflightView)
      → parse_preflight_bytes unmarshal raw ≡ inr vs
      → preflight_bytes unmarshal raw
        ≡ inr (sort finding_less (all_findings vs ++ stack_findings vs))
  unfolding preflight_bytes
  preflight_bytes-sort raw vs e = rw e refl

  -- PreflightBytes reports of every document that parses, and its report names a service in an error
  -- that allow_unsafe_compose does not downgrade just when some service of that name asks for the host
  -- in one of the ways listed: it is privileged; its network, pid or userns mode is host; it adds a
  -- capability that is spelled, but for case and outer blanks, as one of the nine of host_caps, without
  -- the prefix CAP_; a security option says unconfined or label:disable; or the host's side of a volume
  -- ends in docker.sock or is spelled /, /run, /var or /var/run, but for slashes at its end. Another
  -- spelling of such a capability or path is not reported.
  pub preflight_bytes-EscapesHost :
      (raw name : Text) (vs : List PreflightView)
      → parse_preflight_bytes unmarshal raw ≡ inr vs
      → (fs : List Finding) × (preflight_bytes unmarshal raw ≡ inr fs)
        × (((f : Finding) × (In f fs × IsEscape name f))
            ↔ ((v : PreflightView) × (In v vs × ((v.name ≡ name) × EscapesHost v))))
  preflight_bytes-EscapesHost raw name vs e =
      let all = all_findings vs ++ stack_findings vs in
      (
        sort finding_less all,
        preflight_bytes-sort raw vs e,
        (
          (λ (f, (m, (h, (_, n)))). found-EscapesHost f name vs h n (sort-In finding_less f all m)),
          (λ (v, (m, (n, x))).
              let found = EscapesHost-found v x in
              (
                found.0,
                (
                  In-sort finding_less found.0 all (
                      In-append-left found.0 (all_findings vs) _
                        (In-all_findings v found.0 vs m found.1.0)),
                  subst (λ n. IsEscape n found.0) n found.1.1,
                ),
              )),
        ),
      )
