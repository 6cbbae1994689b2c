-- ===== src/DomainStatus.antt =====
-- api/internal/domainstatus: the engine that projects the DNS and TLS status of each host. Resolution, the
-- certificate probe and the list of public suffixes are the record Net, a time is a number, the
-- details of a status are left out, and the probes of one pass run one after the other. A host is a text of ASCII
-- bytes.
pub mod Apex
pub mod Active
mod Tests
use vac.Compose.Strings.{to_lower}
use vac.Compose.Preflight.{is_empty}
use vac.Prelude.{
  Text, ℕ, Bool, List, Option, count, if◌then◌else◌, none, ◌∷◌, ◌&&◌, ◌==◌, [], any, false, is_some,
  keep, leb, not, some, texts_eq, true, ◌+◌, ltb,
}

pub data State : Type 0 where
  state_checking : State
  state_awaiting_dns : State
  state_misconfigured : State
  state_issuing : State
  state_active : State
  state_error : State

pub record Status : Type 0 where
  pub state : State
  pub cert_not_after : Option ℕ
  pub last_checked : Option ℕ

-- certprobe.Result
pub record Certificate : Type 0 where
  pub not_after : ℕ
  pub trusted : Bool

-- `none` is an error; `etld1` is publicsuffix.EffectiveTLDPlusOne, and `cert_probe` may be absent.
pub record Net : Type 0 where
  pub lookup_host : Text → Option (List Text)
  pub lookup_cname : Text → Option Text
  pub etld1 : Text → Option Text
  pub cert_probe : Option (Text → Option Certificate)

pub record Engine : Type 0 where
  pub entries : List (Text × Status)
  pub push_err : List (Text × Text)

abbrev pub find_key {ℓ} : {A : Type ℓ} → Text → List (Text × A) → Option A
find_key key [] = none
find_key key (p ∷ ps) = let rest = find_key key ps in if texts_eq p.0 key then some p.1 else rest

abbrev pub drop_key {ℓ} : {A : Type ℓ} → Text → List (Text × A) → List (Text × A)
drop_key key ps = keep (λ p. not (texts_eq p.0 key)) ps

abbrev pub equal_fold : Text → Text → Bool
equal_fold s t = texts_eq (to_lower s) (to_lower t)

abbrev dots : Text → ℕ
dots host = count (λ c. c == b'.') host

unfoldable pub is_apex : Net → Text → Bool
is_apex net host = elim (net.etld1 host) [ none ↦ leb (dots host) 1 | some e ↦ equal_fold e host ]

-- strings.TrimSuffix(cname, ".")
unfoldable pub trim_dot : Text → Text
trim_dot [] = []
trim_dot (c ∷ []) = if c == b'.' then [] else c ∷ []
trim_dot (c ∷ d ∷ ds) = c ∷ trim_dot (d ∷ ds)

-- An apex whose CNAME is another name.
abbrev pub strays_to : Text → Option Text → Bool
strays_to host none = false
strays_to host (some cname) = not (is_empty cname) && not (equal_fold (trim_dot cname) host)

abbrev pub strays : Net → Text → Bool
strays net host = is_apex net host && strays_to host (net.lookup_cname host)

abbrev pub contains_ip : List Text → Text → Bool
contains_ip addrs ip = any (λ a. texts_eq a ip) addrs

abbrev pub is_elsewhere : (vps_ip : Text) → List Text → Bool
is_elsewhere vps_ip addrs = not (is_empty vps_ip) && not (contains_ip addrs vps_ip)

abbrev pub seen_at : ℕ → State → Status
seen_at now s = record { state = s; cert_not_after = none; last_checked = some now }

abbrev pub is_good : ℕ → Certificate → Bool
is_good now c = c.trusted && ltb now c.not_after

abbrev pub with_certificate : ℕ → Option Certificate → Status
with_certificate now none = seen_at now state_issuing
with_certificate now (some c) =
    if is_good now c
    then record (seen_at now state_active) { cert_not_after = some c.not_after }
    else seen_at now state_issuing

abbrev pub probe_certificate : ℕ → Text → Option (Text → Option Certificate) → Status
probe_certificate now host none = seen_at now state_issuing
probe_certificate now host (some f) = with_certificate now (f host)

abbrev pub judge : Net → (vps_ip : Text) → ℕ → Text → Option (List Text) → Status
judge net vps_ip now host none = seen_at now state_awaiting_dns
judge net vps_ip now host (some []) = seen_at now state_awaiting_dns
judge net vps_ip now host (some (a ∷ addrs)) =
    if strays net host
    then seen_at now state_misconfigured
    else if is_elsewhere vps_ip (a ∷ addrs)
    then seen_at now state_misconfigured
    else probe_certificate now host net.cert_probe

unfoldable pub probe : Net → (vps_ip : Text) → ℕ → Text → Status
unfolding is_apex trim_dot
probe net vps_ip now host = judge net vps_ip now host (net.lookup_host host)

-- A result is kept unless the host was evicted meanwhile.
unfoldable pub store : Text → Status → Engine → Engine
store host st e =
    if is_some (find_key host e.entries)
    then record e { entries = (host, st) ∷ drop_key host e.entries }
    else e

abbrev pub push_error_of : Text → Engine → Text
push_error_of host e = elim (find_key host e.push_err) [ none ↦ [] | some d ↦ d ]

abbrev pub overlaid : Text → Option Status → Option Status
overlaid [] st = st
overlaid (c ∷ cs) none =
    some (record { state = state_error; cert_not_after = none; last_checked = none })
overlaid (c ∷ cs) (some st) = some (record st { state = state_error })

unfoldable pub get_status : Text → Engine → Option Status
get_status host e = overlaid (push_error_of (to_lower host) e) (find_key (to_lower host) e.entries)

abbrev pub is_cached : (cache_window now : ℕ) → Option ℕ → Bool
is_cached cache_window now none = false
is_cached cache_window now (some last) = ltb now (last + cache_window)

-- Behind the look at the entry: inside the window the cached status, and else a fresh probe.
abbrev pub refreshed : Bool → (host key : Text) → (fresh : Status) → Engine → Option Status × Engine
refreshed true host key fresh e = (get_status host e, e)
refreshed false host key fresh e = (get_status host (store key fresh e), store key fresh e)

abbrev pub refresh_entry :
    Net
    → (vps_ip : Text) → (cache_window now : ℕ) → Text
    → Option Status
    → Engine
    → Option Status × Engine
refresh_entry net vps_ip cache_window now host none e = (none, e)
refresh_entry net vps_ip cache_window now host (some st) e =
    refreshed (is_cached cache_window now st.last_checked) host (to_lower host)
      (probe net vps_ip now (to_lower host)) e

unfoldable pub refresh :
    Net → (vps_ip : Text) → (cache_window now : ℕ) → Text → Engine → Option Status × Engine
unfolding probe store get_status
refresh net vps_ip cache_window now host e =
    refresh_entry net vps_ip cache_window now host (find_key (to_lower host) e.entries) e

unfoldable pub set_error : (host detail : Text) → Engine → Engine
set_error host detail e = record e {
  push_err = (to_lower host, detail) ∷ drop_key (to_lower host) e.push_err;
}

unfoldable pub clear_error : Text → Engine → Engine
clear_error host e = record e { push_err = drop_key (to_lower host) e.push_err }

abbrev pub is_active : State → Bool
is_active state_active = true
is_active _ = false

-- Whether an entry is past its interval.
abbrev pub is_due : (pending active now : ℕ) → Status → Bool
is_due pending active now st = elim st.last_checked [
  | none ↦ true
  | some last ↦ leb (last + (if is_active st.state then active else pending)) now
]

abbrev pub enrol : List Text → List (Text × Status) → List (Text × Status)
enrol [] entries = entries
enrol (h ∷ hs) entries =
    let rest = enrol hs entries in
    if is_some (find_key (to_lower h) rest)
    then rest
    else (to_lower h, record { state = state_checking; cert_not_after = none; last_checked = none })
      ∷ rest

abbrev pub is_listed : List Text → Text → Bool
is_listed hosts key = any (λ h. texts_eq (to_lower h) key) hosts

abbrev pub is_evicted : List Text → List (Text × Status) → Text → Bool
is_evicted hosts entries key = is_some (find_key key entries) && not (is_listed hosts key)

abbrev pub probe_each : Net → (vps_ip : Text) → ℕ → List (Text × Status) → Engine → Engine
probe_each net vps_ip now [] e = e
probe_each net vps_ip now (p ∷ ps) e =
    probe_each net vps_ip now ps (store p.0 (probe net vps_ip now p.0) e)

unfoldable pub reconcile :
    Net → (vps_ip : Text) → (pending active now : ℕ) → Option (List Text) → Engine → Engine
unfolding probe store
reconcile net vps_ip pending active now none e = e
reconcile net vps_ip pending active now (some hosts) e =
    let entries = enrol hosts e.entries in
    let known = keep (λ p. is_listed hosts p.0) entries in
    let errors = keep (λ p. not (is_evicted hosts entries p.0)) e.push_err in
    probe_each net vps_ip now (keep (λ p. is_due pending active now p.1) known)
      (record { entries = known; push_err = errors })
