-- ===== src/DomainStatus/Active.antt =====
-- When api/internal/domainstatus calls a host active.
use vac.DomainStatus.Apex.{IsApex, OwnName, no_stray_sound, no_stray_complete}
use vac.Compose.Strings.{to_lower}
use vac.DomainStatus.{
  refreshed, refresh_entry, Net, Engine, Status, Certificate, state_active, state_error, probe,
  judge, probe_certificate, with_certificate, strays, is_elsewhere, is_good, store, push_error_of,
  overlaid, find_key, contains_ip, get_status, refresh, is_cached,
}
use vac.Compose.Preflight.{is_empty}
use vac.Prelude.{
  Text, List, ℕ, Option, ◌≡◌, [], false, some, true, ◌⊎◌, none, Bool-cases, In, refl, ◌<◌, inl, ◌∷◌,
  any_found, inr, any_intro, arith, subst, texts_eq, texts_eq_sound, texts_eq_refl, &&-eq-true,
  &&-true, is_some, ◌↔◌, ltb, lt→ltb, ltb→lt, ◌∙◌, Bool, sym,
}

-- The host resolves, to the expected address where one is set, an apex has no CNAME to another name, and
-- a trusted certificate is served that has not expired.
pub record Serves (net : Net) (vps_ip : Text) (now : ℕ) (host : Text) : Type 0 where
  pub addrs : List Text
  pub resolves : net.lookup_host host ≡ some addrs
  pub some_address : is_empty addrs ≡ false
  pub points_here : (vps_ip ≡ []) ⊎ In vps_ip addrs
  pub no_stray : IsApex net host → OwnName host (net.lookup_cname host)
  pub certificate : Certificate
  pub reader : Text → Option Certificate
  pub has_reader : net.cert_probe ≡ some reader
  pub read : reader host ≡ some certificate
  pub is_trusted : certificate.trusted ≡ true
  pub is_valid : now < certificate.not_after

here-elsewhere :
    (vps_ip : Text) (addrs : List Text)
    → (vps_ip ≡ []) ⊎ In vps_ip addrs
    → is_elsewhere vps_ip addrs ≡ false
here-elsewhere [] addrs h = refl
here-elsewhere (c ∷ cs) addrs (inl e) = absurd cc
here-elsewhere (c ∷ cs) addrs (inr m) =
    rw (any_intro (λ a. texts_eq a (c ∷ cs)) addrs m (texts_eq_refl (c ∷ cs))) refl

elsewhere-here :
    (vps_ip : Text) (addrs : List Text)
    → is_elsewhere vps_ip addrs ≡ false
    → (vps_ip ≡ []) ⊎ In vps_ip addrs
elsewhere-here [] addrs h = inl refl
elsewhere-here (c ∷ cs) addrs h = elim (Bool-cases (contains_ip addrs (c ∷ cs))) [
  | inl y ↦
      let found = any_found _ addrs y in
      inr (subst (λ t. In t addrs) (texts_eq_sound found.0 (c ∷ cs) found.1.1) found.1.0)
  | inr n ↦ absurd (ground (arith, n, h))
]

module _ (net : Net) (vps_ip : Text) (now : ℕ) (host : Text) where
  judge-here :
      (addrs : List Text)
      → is_empty addrs ≡ false
      → strays net host ≡ false
      → is_elsewhere vps_ip addrs ≡ false
      → judge net vps_ip now host (some addrs) ≡ probe_certificate now host net.cert_probe
  judge-here [] z n e = absurd cc
  judge-here (a ∷ addrs) z n e = rw (n, e) refl

  Serves-active : Serves net vps_ip now host → (probe net vps_ip now host).state ≡ state_active
  unfolding probe
  Serves-active s =
      let good : is_good now s.certificate ≡ true =
        &&-true s.is_trusted (lt→ltb now s.certificate.not_after s.is_valid) in
      let judged =
        judge-here s.addrs s.some_address (no_stray_complete net host s.no_stray)
          (here-elsewhere vps_ip s.addrs s.points_here) in
      rw (s.resolves, judged, s.has_reader, s.read, good) refl

  active-certificate :
      (o : Option Certificate)
      → (with_certificate now o).state ≡ state_active
      → (c : Certificate) × ((o ≡ some c) × (is_good now c ≡ true))
  active-certificate none h = absurd cc
  active-certificate (some c) h = elim (Bool-cases (is_good now c)) [
    | inl y ↦ (c, (refl, y))
    | inr n ↦ absurd (ground (arith, n, h))
  ]

  active-reader :
      (o : Option (Text → Option Certificate))
      → (probe_certificate now host o).state ≡ state_active
      → (f : Text → Option Certificate) × ((o ≡ some f)
          × ((with_certificate now (f host)).state ≡ state_active))
  active-reader none h = absurd cc
  active-reader (some f) h = (f, (refl, h))

  active-judge :
      (o : Option (List Text))
      → (judge net vps_ip now host o).state ≡ state_active
      → (addrs : List Text) × ((o ≡ some addrs)
          × ((is_empty addrs ≡ false)
              × ((strays net host ≡ false)
                  × ((is_elsewhere vps_ip addrs ≡ false)
                      × ((probe_certificate now host net.cert_probe).state ≡ state_active)))))
  active-judge none h = absurd cc
  active-judge (some []) h = absurd cc
  active-judge (some (a ∷ addrs)) h = elim (Bool-cases (strays net host)) [
    | inl y ↦ absurd (ground (arith, y, h))
    | inr n ↦ elim (Bool-cases (is_elsewhere vps_ip (a ∷ addrs))) [
      | inl y ↦ absurd (ground (arith, n, y, h))
      | inr m ↦ (
        a ∷ addrs,
        (
          refl,
          (
            refl,
            (n, (m, subst (λ st. st.state ≡ state_active) (judge-here (a ∷ addrs) refl n m) h)),
          ),
        ),
      )
    ]
  ]

  active-Serves : (probe net vps_ip now host).state ≡ state_active → Serves net vps_ip now host
  unfolding probe
  active-Serves h =
      let (addrs, (r, (z, (n, (m, k))))) = active-judge (net.lookup_host host) h in
      let (f, (p, q)) = active-reader net.cert_probe k in
      let (c, (e, g)) = active-certificate (f host) q in
      let good = &&-eq-true c.trusted (ltb now c.not_after) g in
      record {
        addrs = addrs;
        resolves = r;
        some_address = z;
        points_here = elsewhere-here vps_ip addrs m;
        no_stray = no_stray_sound net host n;
        certificate = c;
        reader = f;
        has_reader = p;
        read = e;
        is_trusted = good.0;
        is_valid = ltb→lt now c.not_after good.1;
      }

-- The entry of a host that was just stored.
find-store :
    (key : Text) (st old : Status) (e : Engine)
    → find_key key e.entries ≡ some old
    → find_key key (store key st e).entries ≡ some st
unfolding store
find-store key st old e h = rw (h, texts_eq_refl key) refl

push_error-store :
    (key host : Text) (st : Status) (e : Engine)
    → push_error_of host (store key st e) ≡ push_error_of host e
unfolding store
push_error-store key host st e = elim (Bool-cases (is_some (find_key key e.entries))) [
  | inl y ↦ rw y refl
  | inr n ↦ rw n refl
]

overlaid-some :
    (d : Text) (st : Status)
    → (answer : Status) × ((overlaid d (some st) ≡ some answer)
        × ((answer.state ≡ state_active) ↔ ((d ≡ []) × (st.state ≡ state_active))))
overlaid-some [] st = (st, (refl, ((λ h. (refl, h)), (λ h. h.1))))
overlaid-some (c ∷ cs) st = (
  record st { state = state_error },
  (refl, ((λ h. absurd cc), (λ h. absurd (let x = h.0 in cc)))),
)

get-store :
    (host : Text) (st old : Status) (e : Engine)
    → find_key (to_lower host) e.entries ≡ some old
    → get_status host (store (to_lower host) st e)
      ≡ overlaid (push_error_of (to_lower host) e) (some st)
unfolding get_status
get-store host st old e h =
    rw
      (push_error-store (to_lower host) (to_lower host) st e, find-store (to_lower host) st old e h)
      refl

fresh-get :
    (b : Bool) (host : Text) (st : Status) (e : Engine)
    → b ≡ false
    → (refreshed b host (to_lower host) st e).0 ≡ get_status host (store (to_lower host) st e)
fresh-get true host st e h = absurd cc
fresh-get false host st e h = refl

module _ (net : Net) (vps_ip : Text) (cache_window now : ℕ) (host : Text) (e : Engine)
    (old : Status) where
  entry-get :
      (o : Option Status)
      → o ≡ some old
      → is_cached cache_window now old.last_checked ≡ false
      → (refresh_entry net vps_ip cache_window now host o e).0
        ≡ get_status host (store (to_lower host) (probe net vps_ip now (to_lower host)) e)
  entry-get none h c = absurd cc
  entry-get (some st) h c =
      let same : st ≡ old = cc in
      fresh-get _ host _ e
        (subst (λ x. is_cached cache_window now x.last_checked ≡ false) (sym same) c)

  refresh-get :
      find_key (to_lower host) e.entries ≡ some old
      → is_cached cache_window now old.last_checked ≡ false
      → (refresh net vps_ip cache_window now host e).0
        ≡ get_status host (store (to_lower host) (probe net vps_ip now (to_lower host)) e)
  unfolding refresh
  refresh-get h c = entry-get _ h c

-- A refresh of a known host outside the cache window answers, and it answers that the host is active just
-- when no push error is recorded for it and it serves: it resolves, to the expected address where one
-- is set, an apex has no CNAME to another name, and a trusted certificate is served that has not
-- expired. An apex is what the public suffix list calls the registrable domain or, where the list has no
-- answer, a host with at most one dot.
pub refresh-Serves :
    (net : Net) (vps_ip : Text) (cache_window now : ℕ) (host : Text) (e : Engine) (old : Status)
    → find_key (to_lower host) e.entries ≡ some old
    → is_cached cache_window now old.last_checked ≡ false
    → (answer : Status) × (((refresh net vps_ip cache_window now host e).0 ≡ some answer)
        × ((answer.state ≡ state_active)
            ↔ ((push_error_of (to_lower host) e ≡ []) × Serves net vps_ip now (to_lower host))))
refresh-Serves net vps_ip cache_window now host e old h c =
    let st = probe net vps_ip now (to_lower host) in
    let (answer, (k, both)) = overlaid-some (push_error_of (to_lower host) e) st in
    (
      answer,
      (
        refresh-get net vps_ip cache_window now host e old h c ∙ (get-store host st old e h ∙ k),
        (
          (λ a. ((both.0 a).0, active-Serves net vps_ip now (to_lower host) (both.0 a).1)),
          (λ (p, s). both.1 (p, Serves-active net vps_ip now (to_lower host) s)),
        ),
      ),
    )
