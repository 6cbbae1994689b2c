-- ===== src/Proxy/Server.antt =====
-- A Caddy server that carries out every request, but for a deletion of an unknown id: the list of its routes.
use vac.Proxy.Maintained.{CarriesOut}
use vac.Proxy.{Route, Caddy, IsCaddy, dials_of}
use mathlib.Core.Bool.{false≢true}
use mathlib.Core.Option.{some-injective}
use vac.Prelude.{
  Text, ℕ, Bool, List, ◌∷◌, [], ◌++◌, none, some, ◌≡◌, ◌≢◌, ◌⊎◌, inl, inr, In, keep, not, texts_eq,
  Bool-cases, refl, sym, ap, subst, In-append-cases, In-append-left, In-keep, texts_eq_refl,
  texts_eq_sound, true, ◌∙◌, any, false, if◌then◌else◌, any_intro, ascii,
}

abbrev pub without_id : Text → List Route → List Route
without_id id rs = keep (λ r. not (texts_eq r.id id)) rs

abbrev pub has_id : Text → List Route → Bool
has_id id rs = any (λ r. texts_eq r.id id) rs

abbrev pub healthy_dials : List Text → List (Text × ℕ)
healthy_dials [] = []
healthy_dials (d ∷ ds) = (d, 0) ∷ healthy_dials ds

abbrev pub pool_of : List Route → List (Text × ℕ)
pool_of [] = []
pool_of (r ∷ rs) = healthy_dials (dials_of r.handle) ++ pool_of rs

abbrev pub list_server : Caddy
list_server = record {
  State = List Route;
  post_route = λ r s. (none, s ++ r ∷ []);
  delete_id =
      λ id s. (if has_id id s then none else some (ascii "unknown object ID"), without_id id s);
  routes = λ s. inr s;
  load = λ s. (none, []);
  patch_certs = λ cs s. (none, s);
  upstreams = λ s. some (pool_of s);
  served = λ s. s;
}

keep-In :
    {A : Type 0} (p : A → Bool) (xs : List A) (a : A) → In a (keep p xs) → In a xs × (p a ≡ true)
keep-In p [] a = λ i. elim i [ ]
keep-In p (x ∷ xs) a = elim (Bool-cases (p x)) [
  | inl y ↦ rw y (λ i. elim i [
    | inl e ↦ (inl e, ap p e ∙ y)
    | inr j ↦ (inr (keep-In p xs a j).0, (keep-In p xs a j).1)
  ])
  | inr n ↦ rw n (λ i. (inr (keep-In p xs a i).0, (keep-In p xs a i).1))
]

In-healthy : (ds : List Text) (addr : Text) (n : ℕ) → In (addr, n) (healthy_dials ds) → In addr ds
In-healthy [] addr n i = elim i [ ]
In-healthy (d ∷ ds) addr n (inl e) = inl (ap (λ (p : Text × ℕ). p.0) e)
In-healthy (d ∷ ds) addr n (inr i) = inr (In-healthy ds addr n i)

pool_of-dialled :
    (rs : List Route) (addr : Text) (n : ℕ)
    → In (addr, n) (pool_of rs)
    → (r : Route) × (In r rs × In addr (dials_of r.handle))
pool_of-dialled [] addr n i = elim i [ ]
pool_of-dialled (r ∷ rs) addr n i =
    elim (In-append-cases (addr, n) (healthy_dials (dials_of r.handle)) (pool_of rs) i) [
      | inl here ↦ (r, (inl refl, In-healthy (dials_of r.handle) addr n here))
      | inr later ↦
          let found = pool_of-dialled rs addr n later in (found.0, (inr found.1.0, found.1.1))
    ]

not_equal_texts : (s t : Text) → s ≢ t → not (texts_eq s t) ≡ true
not_equal_texts s t h = elim (Bool-cases (texts_eq s t)) [
  | inl y ↦ absurd (h (texts_eq_sound s t y))
  | inr n ↦ rw n refl
]

equal_texts : (s t : Text) → not (texts_eq s t) ≡ true → s ≢ t
equal_texts s t h q =
    false≢true
      (ap not (sym (texts_eq_refl t)) ∙ (ap (λ (u : Text). not (texts_eq u t)) (sym q) ∙ h))

routes-eq : (s rs : List Route) → ◌≡◌ {A = Text ⊎ List Route} (inr s) (inr rs) → rs ≡ s
routes-eq s rs e = cc

pub list_server-IsCaddy : IsCaddy list_server
list_server-IsCaddy = record {
  post_adds = λ r s x i. elim (In-append-cases x s (r ∷ []) i) [
    | inl old ↦ inl old
    | inr new ↦ inr (elim new [ inl e ↦ e | inr n ↦ elim n [ ] ])
  ];
  post_keeps = λ r s x i. In-append-left x s (r ∷ []) i;
  delete_only = λ id s x i. (keep-In (λ (r : Route). not (texts_eq r.id id)) s x i).0;
  delete_keeps =
      λ id s x h i. In-keep (λ (r : Route). not (texts_eq r.id id)) s i (not_equal_texts x.id id h);
  delete_done =
      λ id s x h i. equal_texts x.id id (keep-In (λ (r : Route). not (texts_eq r.id id)) s x i).1;
  load_only = λ s x i. elim i [ ];
  certs_only = λ cs s x i. i;
  certs_keep = λ cs s x i. i;
  routes_served = λ s rs e. routes-eq s rs e;
  upstreams_dialled = λ s ups addr n e i.
      pool_of-dialled s addr n (subst (In (addr, n)) (sym (some-injective _ _ e)) i);
}

unknown-absent :
    (id : Text) (s : List Route) → has_id id s ≡ false → (x : Route) → In x s → x.id ≢ id
unknown-absent id s h x i q = false≢true (
    sym h
    ∙ any_intro (λ (r : Route). texts_eq r.id id) s i
        (ap (λ (t : Text). texts_eq t id) q ∙ texts_eq_refl id))

pub list_server-CarriesOut : CarriesOut list_server
list_server-CarriesOut id s = elim (Bool-cases (has_id id s)) [
  | inl y ↦ inl (rw y refl)
  | inr n ↦ inr (unknown-absent id s n)
]
