-- ===== src/Compose/Host.antt =====
-- The tests of api/internal/compose/preflight.go for a service that reaches for the host.
use vac.Compose.Spelled.{host_caps, off_switches, spelled_dirs, socket_dirs, host_side}
use vac.Compose.Strings.{contains_text, has_suffix, to_upper, to_lower, trim_space}
use vac.Prelude.{
  Bool, List, Text, not, ◌≡◌, ◌&&◌, ◌++◌, In, if◌then◌else◌, map, texts_eq, true, ◌||◌, any_found,
  any_intro, ascii, keep, texts_eq_refl, ◌∷◌, false, [], any, subst, refl, arith, texts_eq_sound,
  ||-elim, ||-left, ||-second, inl, inr, ◌⊎◌, Bool-cases, sym, ◌∙◌,
}
use vac.Compose.Views.{PreflightView}
use vac.Compose.Tables.{
  Finding, severity_error, is_host_escape, volume_exposes_docker_socket, dangerous_caps, is_one_of,
  or_root,
}
use vac.Compose.Preflight.{escalations, cap_name, disables_confinement, is_empty}

-- The ways in which a service reaches for the host.
pub data EscapesHost (v : PreflightView) : Type 0 where
  by_privileged : v.privileged ≡ true → EscapesHost v
  by_network : v.network_mode ≡ ascii "host" → EscapesHost v
  by_pid : v.pid_mode ≡ ascii "host" → EscapesHost v
  by_userns : v.userns_mode ≡ ascii "host" → EscapesHost v
  by_cap :
      (cap : Text) → In cap v.cap_add → In (to_upper (trim_space cap)) host_caps → EscapesHost v
  by_option :
      (option switch : Text)
      → In option v.security_opt
      → In switch off_switches
      → contains_text (to_lower (trim_space option)) switch ≡ true
      → EscapesHost v
  by_socket :
      (volume : Text)
      → In volume v.volumes
      → has_suffix (host_side volume) (ascii "docker.sock") ≡ true
      → EscapesHost v
  by_directory :
      (volume : Text) → In volume v.volumes → In (host_side volume) socket_dirs → EscapesHost v

-- An operator cannot wave the finding through.
abbrev pub IsEscape : Text → Finding → Type 0
IsEscape name f = (is_host_escape f ≡ true) × ((f.severity ≡ severity_error) × (f.service ≡ name))

is_one_of_sound : (ts : List Text) (s : Text) → is_one_of ts s ≡ true → In s ts
is_one_of_sound ts s h =
    let found = any_found (λ t. texts_eq t s) ts h in
    subst (λ t. In t ts) (texts_eq_sound found.0 s found.1.1) found.1.0

is_one_of_complete : (ts : List Text) (s : Text) → In s ts → is_one_of ts s ≡ true
is_one_of_complete ts s m = any_intro (λ t. texts_eq t s) ts m (texts_eq_refl s)

texts_eq_complete : (s t : Text) → s ≡ t → texts_eq s t ≡ true
texts_eq_complete s t e = rw e (texts_eq_refl t)

-- The tests of a security option and of a volume.
abbrev SwitchOf : (Text → Bool) → Type 0
SwitchOf p = (switch : Text) × (In switch off_switches × (p switch ≡ true))

some_switch : (p : Text → Bool) → any p off_switches ≡ true → SwitchOf p
some_switch p h = any_found p off_switches h

ends_false : (a b c d : Bool) → (a || (b || (c || (d || false)))) ≡ (a || b || c || d)
ends_false true b c d = refl
ends_false false true c d = refl
ends_false false false true d = refl
ends_false false false false true = refl
ends_false false false false false = refl

-- Whether a security option says one of them.
says : (option : Text) → Text → Bool
says option = contains_text (to_lower (trim_space option))

confinement-any : (option : Text) → any (says option) off_switches ≡ disables_confinement option
unfolding says
confinement-any option =
    let s = to_lower (trim_space option) in
    ends_false (contains_text s (ascii "unconfined")) (contains_text s (ascii "seccomp=unconfined"))
      (contains_text s (ascii "apparmor=unconfined")) (contains_text s (ascii "label:disable"))

switched_off :
    (option : Text)
    → disables_confinement option ≡ true
    → SwitchOf (contains_text (to_lower (trim_space option)))
unfolding says
switched_off option h = some_switch (says option) (confinement-any option ∙ h)

off_switched :
    (option switch : Text)
    → In switch off_switches
    → contains_text (to_lower (trim_space option)) switch ≡ true
    → disables_confinement option ≡ true
unfolding says
off_switched option switch i h =
    sym (confinement-any option) ∙ any_intro (says option) off_switches i h

either_true : (b : Bool) → (if b then true else true) ≡ true
either_true true = refl
either_true false = refl

-- The test of a volume, for its host's side.
abbrev exposes_side : Text → Bool
exposes_side side =
    if has_suffix (or_root side) (ascii "docker.sock")
    then true
    else is_one_of spelled_dirs (or_root side)

exposed_by :
    (side : Text)
    → exposes_side side ≡ true
    → (has_suffix side (ascii "docker.sock") ≡ true) ⊎ In side socket_dirs
exposed_by [] h = inr (inl refl)
exposed_by (c ∷ cs) h = elim (Bool-cases (has_suffix (c ∷ cs) (ascii "docker.sock"))) [
  | inl y ↦ inl y
  | inr n ↦ inr (inr (is_one_of_sound spelled_dirs (c ∷ cs) (rw n at h)))
]

by_exposed :
    (side : Text)
    → (has_suffix side (ascii "docker.sock") ≡ true) ⊎ In side socket_dirs
    → exposes_side side ≡ true
by_exposed [] k = either_true (has_suffix (ascii "/") (ascii "docker.sock"))
by_exposed (c ∷ cs) (inl y) = rw y refl
by_exposed (c ∷ cs) (inr (inl e)) = absurd cc
by_exposed (c ∷ cs) (inr (inr i)) = elim (Bool-cases (has_suffix (c ∷ cs) (ascii "docker.sock"))) [
  | inl y ↦ rw y refl
  | inr n ↦ rw n (is_one_of_complete spelled_dirs (c ∷ cs) i)
]

pub is_empty-append {ℓ} :
    {A : Type ℓ} (xs ys : List A) → is_empty (xs ++ ys) ≡ (is_empty xs && is_empty ys)
is_empty-append [] ys = refl
is_empty-append (x ∷ xs) ys = refl

pub is_empty-map-keep :
    (f : Text → Text) (p : Text → Bool) (xs : List Text)
    → is_empty (map f (keep p xs)) ≡ not (any p xs)
is_empty-map-keep f p [] = refl
is_empty-map-keep f p (x ∷ xs) = ground (arith, is_empty-map-keep f p xs)

-- Some test of the rule holds.
abbrev pub asks : PreflightView → Bool
asks v =
    v.privileged
    || (texts_eq v.network_mode (ascii "host")
        || (texts_eq v.pid_mode (ascii "host")
            || (texts_eq v.userns_mode (ascii "host")
                || (any (λ c. is_one_of dangerous_caps (cap_name c)) v.cap_add
                    || any disables_confinement v.security_opt))))

-- A list that grows by one text for each test that holds has a text just when some test holds.
grown-asks :
    (p n q u : Bool) (a b c d : Text) (xs ys : List Text) (x y : Bool)
    → is_empty xs ≡ not x
    → is_empty ys ≡ not y
    → not (
        is_empty (
          (if p then a ∷ [] else [])
          ++ ((if n then b ∷ [] else [])
              ++ ((if q then c ∷ [] else []) ++ ((if u then d ∷ [] else []) ++ (xs ++ ys))))))
      ≡ (p || (n || (q || (u || (x || y)))))
grown-asks true n q u a b c d xs ys x y ex ey = refl
grown-asks false true q u a b c d xs ys x y ex ey = refl
grown-asks false false true u a b c d xs ys x y ex ey = refl
grown-asks false false false true a b c d xs ys x y ex ey = refl
grown-asks false false false false a b c d (z ∷ zs) ys true y ex ey = refl
grown-asks false false false false a b c d (z ∷ zs) ys false y ex ey = absurd cc
grown-asks false false false false a b c d [] ys true y ex ey = absurd cc
grown-asks false false false false a b c d [] [] false true ex ey = absurd cc
grown-asks false false false false a b c d [] [] false false ex ey = refl
grown-asks false false false false a b c d [] (z ∷ zs) false true ex ey = refl
grown-asks false false false false a b c d [] (z ∷ zs) false false ex ey = absurd cc

pub escalations-asks : (v : PreflightView) → not (is_empty (escalations v)) ≡ asks v
unfolding escalations
escalations-asks v =
    grown-asks v.privileged (texts_eq v.network_mode (ascii "host"))
      (texts_eq v.pid_mode (ascii "host")) (texts_eq v.userns_mode (ascii "host")) _ _ _ _ _ _ _ _
      (is_empty-map-keep _ (λ c. is_one_of dangerous_caps (cap_name c)) v.cap_add)
      (is_empty-map-keep _ disables_confinement v.security_opt)

-- Some test of the two rules holds.
abbrev pub reaches : PreflightView → Bool
reaches v = asks v || any volume_exposes_docker_socket v.volumes

pub reaches-EscapesHost : (v : PreflightView) → reaches v ≡ true → EscapesHost v
unfolding volume_exposes_docker_socket
reaches-EscapesHost v =
    let host = ascii "host" in
    ||-elim (asks v) _
      (||-elim v.privileged _ by_privileged (
        ||-elim (texts_eq v.network_mode host) _
          (λ h. by_network (texts_eq_sound v.network_mode host h))
          (||-elim (texts_eq v.pid_mode host) _ (λ h. by_pid (texts_eq_sound v.pid_mode host h))
            (||-elim (texts_eq v.userns_mode host) _
              (λ h. by_userns (texts_eq_sound v.userns_mode host h))
              (||-elim (any (λ c. is_one_of dangerous_caps (cap_name c)) v.cap_add) _
                (λ h.
                  let found = any_found _ v.cap_add h in
                  by_cap found.0 found.1.0
                    (is_one_of_sound dangerous_caps (cap_name found.0) found.1.1))
                (λ h.
                  let found = any_found disables_confinement v.security_opt h in
                  let off = switched_off found.0 found.1.1 in
                  by_option found.0 off.0 found.1.0 off.1.0 off.1.1))))))
      (λ h.
        let found = any_found volume_exposes_docker_socket v.volumes h in
        elim (exposed_by (host_side found.0) found.1.1) [
          | inl sock ↦ by_socket found.0 found.1.0 sock
          | inr dir ↦ by_directory found.0 found.1.0 dir
        ])

pub EscapesHost-reaches : (v : PreflightView) → EscapesHost v → reaches v ≡ true
unfolding volume_exposes_docker_socket
EscapesHost-reaches v (by_privileged h) = rw h refl
EscapesHost-reaches v (by_network h) =
    let t = texts_eq_complete v.network_mode (ascii "host") h in ground (arith, t)
EscapesHost-reaches v (by_pid h) =
    let t = texts_eq_complete v.pid_mode (ascii "host") h in ground (arith, t)
EscapesHost-reaches v (by_userns h) =
    let t = texts_eq_complete v.userns_mode (ascii "host") h in ground (arith, t)
EscapesHost-reaches v (by_cap cap m k) =
    let t =
      any_intro (λ c. is_one_of dangerous_caps (cap_name c)) v.cap_add m
        (is_one_of_complete dangerous_caps (cap_name cap) k) in
    ||-left (asks v) _ (
      ||-second v.privileged _ (
        ||-second (texts_eq v.network_mode (ascii "host")) _ (
          ||-second (texts_eq v.pid_mode (ascii "host")) _
            (||-second (texts_eq v.userns_mode (ascii "host")) _ (||-left _ _ t)))))
EscapesHost-reaches v (by_option option switch m i k) =
    let t = any_intro disables_confinement v.security_opt m (off_switched option switch i k) in
    ||-left (asks v) _ (
      ||-second v.privileged _ (
        ||-second (texts_eq v.network_mode (ascii "host")) _ (
          ||-second (texts_eq v.pid_mode (ascii "host")) _
            (||-second (texts_eq v.userns_mode (ascii "host")) _ (||-second _ _ t)))))
EscapesHost-reaches v (by_socket volume m k) =
    ||-second (asks v) _
      (any_intro volume_exposes_docker_socket v.volumes m (by_exposed (host_side volume) (inl k)))
EscapesHost-reaches v (by_directory volume m k) =
    ||-second (asks v) _
      (any_intro volume_exposes_docker_socket v.volumes m (by_exposed (host_side volume) (inr k)))
