-- ===== src/Edge/Laws.antt =====
-- The hosts that the edge router takes, and where it sends them.
use Prim.Native.Char.{Char}
use osg_gateway.Base.{
  ℕ, suc, ◌≤◌, String, Bool, true, false, ◌≡◌, ◌≢◌, ◌⊎◌, ◌↔◌, inl, inr, refl, sym, ap, ◌∙◌, arith,
  ◌==◌, none, some, eq_iff, eq_refl, Option-cases, Bool-cases, ne→==, false≢true,
}
use osg_gateway.Base.Int.{ℤ, is_pos}
use osg_gateway.Base.Text.{is_empty, contains_rune, strip_suffix, to_lower, ◌+++◌}
use osg_gateway.Base.Text.Laws.{empty_of}
use osg_gateway.Store.Records.{ServiceRecord}
use osg_gateway.Store.Io.{Store}
use osg_gateway.Store.Registry.{get_service}
use osg_gateway.Edge.{
  edge_refused, edge_suffix_open_shell, edge_suffix_osg, label, edge_service_name, passed, proxied,
  service_of, to_backend, backend_host, backend_port, with_edge_router,
}
use osg_gateway.Http.{trim_space}
use osg_gateway.Http.Host.{without_port}

abbrev size : String → ℕ
size String.[] = 0
size (String.◌∷◌ c s) = suc (size s)

size-append : (t s : String) → size s ≤ size (t +++ s)
size-append String.[] s = omega arith
size-append (String.◌∷◌ c t) s = let ih = size-append t s in omega arith

longer : (c : Char) (s suf : String) → size suf ≤ size s → (String.◌∷◌ c s == suf) ≡ false
longer c s suf h = ne→== _ suf (λ e. let long = ap size e in omega arith)

strip_suffix_sound : (s suf t : String) → strip_suffix s suf ≡ some t → s ≡ t +++ suf
unfolding strip_suffix
strip_suffix_sound String.[] String.[] t h = let all : "" ≡ t = ground arith in rw (← all) refl
strip_suffix_sound String.[] (String.◌∷◌ c suf) t h = absurd (ground arith)
strip_suffix_sound (String.◌∷◌ c s) suf t h = elim (Bool-cases (String.◌∷◌ c s == suf)) [
  | inl e ↦ let all : "" ≡ t = ground arith in rw (← all) ((eq_iff _ _).0 e)
  | inr e ↦ elim (Option-cases (strip_suffix s suf)) [
    | inl n ↦ ground arith
    | inr (m, found) ↦
        let same : String.◌∷◌ c m ≡ t = ground arith in
        rw (← same) (ap (String.◌∷◌ c) (strip_suffix_sound s suf m found))
  ]
]

strip_suffix-append : (t suf : String) → strip_suffix (t +++ suf) suf ≡ some t
unfolding strip_suffix
strip_suffix-append String.[] String.[] = refl
strip_suffix-append String.[] (String.◌∷◌ c suf) = rw eq_refl
strip_suffix-append (String.◌∷◌ c t) suf =
    rw (longer c (t +++ suf) suf (size-append t suf), strip_suffix-append t suf)

other_suffix : (t : String) → strip_suffix (t +++ edge_suffix_osg) edge_suffix_open_shell ≡ none
unfolding strip_suffix
other_suffix String.[] = refl
other_suffix (String.◌∷◌ c t) =
    let long = size-append t edge_suffix_osg in
    rw (longer c (t +++ edge_suffix_osg) edge_suffix_open_shell (omega arith), other_suffix t)

-- `label` keeps a name that is not empty and has no dot.
label_iff :
    (name n : String)
    → (label name ≡ some n) ↔ ((name ≡ n) × (n ≢ "") × (contains_rune n "." ≡ false))
label_iff name n = (
  λ h. elim (Bool-cases (is_empty name)) [
    | inl e ↦ absurd (ground arith)
    | inr e ↦ elim (Bool-cases (contains_rune name ".")) [
      | inl dot ↦ absurd (ground arith)
      | inr flat ↦
          let same : name ≡ n = ground arith in
          rw (← same) (refl, λ blank. false≢true (sym e ∙ ap is_empty blank), flat)
    ]
  ],
  λ (same, ne, flat). elim (Bool-cases (is_empty name)) [
    | inl e ↦ absurd (ne (sym same ∙ empty_of name e))
    | inr e ↦ rw (e, same, flat) refl
  ],
)

label_of : (n : String) → n ≢ "" → contains_rune n "." ≡ false → label n ≡ some n
label_of n ne flat = (label_iff n n).1 (refl, ne, flat)

taken_open_shell :
    (n : String) → label n ≡ some n → service_of (n +++ edge_suffix_open_shell) ≡ some n
taken_open_shell n h = rw (strip_suffix-append n edge_suffix_open_shell, service_of) h

taken_osg : (n : String) → label n ≡ some n → service_of (n +++ edge_suffix_osg) ≡ some n
taken_osg n h = rw (other_suffix n, service_of) (rw (strip_suffix-append n edge_suffix_osg) h)

service_of_iff :
    (x n : String)
    → (service_of x ≡ some n) ↔ (
        (n ≢ "")
        × (contains_rune n "." ≡ false)
        × ((x ≡ n +++ edge_suffix_open_shell) ⊎ (x ≡ n +++ edge_suffix_osg)))
service_of_iff x n = (
  λ h. elim (Option-cases (strip_suffix x edge_suffix_open_shell)) [
    | inr (m, e) ↦
        let (same, ne, flat) = (label_iff m n).0 (ground arith) in
        (ne, flat, inl (rw (← same) (strip_suffix_sound x edge_suffix_open_shell m e)))
    | inl none_of ↦ elim (Option-cases (strip_suffix x edge_suffix_osg)) [
      | inl e ↦ absurd (ground arith)
      | inr (m, e) ↦
          let (same, ne, flat) = (label_iff m n).0 (ground arith) in
          (ne, flat, inr (rw (← same) (strip_suffix_sound x edge_suffix_osg m e)))
    ]
  ],
  λ (ne, flat, which). elim which [
    | inl e ↦ rw e (taken_open_shell n (label_of n ne flat))
    | inr e ↦ rw e (taken_osg n (label_of n ne flat))
  ],
)

-- A host is taken for the service `n` exactly where it is, trimmed and in small letters, the text
-- `n` before one of the two suffixes, and `n` is not empty and has no dot.
pub edge_service_name_iff :
    (h n : String)
    → (edge_service_name h ≡ some n) ↔ (
        (n ≢ "")
        × (contains_rune n "." ≡ false)
        × ((to_lower (trim_space h) ≡ n +++ edge_suffix_open_shell)
            ⊎ (to_lower (trim_space h) ≡ n +++ edge_suffix_osg)))
unfolding edge_service_name
edge_service_name_iff h n = service_of_iff (to_lower (trim_space h)) n

-- The host, trimmed and in small letters, is the name before one of the two suffixes.
abbrev pub IsNamed : String → String → Type 0
IsNamed host n =
    (n ≢ "")
    × (contains_rune n "." ≡ false)
    × ((to_lower (trim_space (without_port host)) ≡ n +++ ".openshell.localhost")
        ⊎ (to_lower (trim_space (without_port host)) ≡ n +++ ".whaleshell.localhost"))

-- The backend's host, 127.0.0.1 where it is blank; and the backend's port, or the service's where
-- that is not above 0.
abbrev pub IsTarget : ServiceRecord → String → ℤ → Type 0
IsTarget svc to port =
    ((trim_space svc.backend_host ≡ "") × (to ≡ "127.0.0.1")
      ⊎ (trim_space svc.backend_host ≢ "") × (to ≡ trim_space svc.backend_host))
    × ((is_pos svc.backend_port ≡ true) × (port ≡ svc.backend_port)
        ⊎ (is_pos svc.backend_port ≡ false) × (port ≡ svc.port))
    × (is_pos port ≡ true)

target_of :
    (svc : ServiceRecord)
    → is_pos (backend_port svc) ≡ true
    → IsTarget svc (backend_host svc) (backend_port svc)
target_of svc h = (
  elim (Bool-cases (trim_space svc.backend_host == "")) [
    | inl e ↦ inl ((eq_iff _ _).0 e, rw e refl)
    | inr e ↦ inr (λ blank. false≢true (sym e ∙ (eq_iff _ _).1 blank), rw e refl)
  ],
  elim (Bool-cases (is_pos svc.backend_port)) [
    | inl e ↦ inl (e, rw e refl)
    | inr e ↦ inr (e, rw e refl)
  ],
  h,
)

target_unique :
    (svc : ServiceRecord) (to : String) (port : ℤ)
    → IsTarget svc to port
    → (to ≡ backend_host svc) × (port ≡ backend_port svc)
target_unique svc to port (host, at, _) = (
  elim host [ inl (blank, e) ↦ rw ((eq_iff _ _).1 blank) e | inr (ne, e) ↦ rw (ne→== _ _ ne) e ],
  elim at [ inl (e, f) ↦ rw e f | inr (e, f) ↦ rw e f ],
)

module _ (valid_target : String → ℤ → Bool) where
  to_backend-IsTarget :
      (svc : ServiceRecord) (to : String) (port : ℤ)
      → to_backend valid_target svc ≡ proxied to port
      → IsTarget svc to port × (valid_target to port ≡ true)
  to_backend-IsTarget svc to port h = elim (Bool-cases (is_pos (backend_port svc))) [
    | inr e ↦ absurd (ground arith)
    | inl e ↦ elim (Bool-cases (valid_target (backend_host svc) (backend_port svc))) [
      | inr f ↦ absurd (ground arith)
      | inl f ↦
          let same_host : backend_host svc ≡ to = ground arith in
          let same_port : backend_port svc ≡ port = ground arith in
          rw (← same_host, ← same_port) (target_of svc e, f)
    ]
  ]

  target-to_backend :
      (svc : ServiceRecord) (to : String) (port : ℤ)
      → IsTarget svc to port
      → valid_target to port ≡ true
      → to_backend valid_target svc ≡ proxied to port
  target-to_backend svc to port t v =
      let (host, at) = target_unique svc to port t in
      let above : is_pos (backend_port svc) ≡ true = sym (ap is_pos at) ∙ t.2 in
      let fits : valid_target (backend_host svc) (backend_port svc) ≡ true =
        sym (ap (valid_target (backend_host svc)) at)
        ∙ sym (ap (λ x. valid_target x port) host)
        ∙ v in
      rw (above, fits, to_backend) (rw (host, at) refl)

  to_backend_kept : (svc : ServiceRecord) → to_backend valid_target svc ≢ passed
  to_backend_kept svc h = ground arith

  -- A request is proxied to a host and a port exactly where its host names a service that is
  -- registered, the host is the backend's, 127.0.0.1 where that is blank, the port is the
  -- backend's, or else the service's, and is above 0, and the two make a URL. It is refused with
  -- 404 where the service is not registered, and passed to the control plane exactly where its host
  -- names no service.
  pub with_edge_router_proxied :
      (host : String) (s : Store)
      → ((to : String) (port : ℤ)
          → (with_edge_router valid_target host s ≡ proxied to port) ↔ (
              (name : String) × (svc : ServiceRecord) × IsNamed host name
              × (get_service name s ≡ some svc)
              × IsTarget svc to port
              × (valid_target to port ≡ true)))
        × ((name : String)
            → IsNamed host name
            → get_service name s ≡ none
            → with_edge_router valid_target host s ≡ edge_refused 404)
        × ((with_edge_router valid_target host s ≡ passed)
            ↔ ((name : String) → ¬ IsNamed host name))
  unfolding with_edge_router
  with_edge_router_proxied host s =
      let named = edge_service_name_iff (without_port host) in
      (
        λ to port. (
          λ h. elim (Option-cases (edge_service_name (without_port host))) [
            | inl e ↦ absurd (ground arith)
            | inr (name, e) ↦ elim (Option-cases (get_service name s)) [
              | inl f ↦ absurd (ground arith)
              | inr (svc, f) ↦
                  let (target, valid) =
                    to_backend-IsTarget svc to port (rw (e, f, with_edge_router) at h) in
                  (name, svc, (named name).0 e, f, target, valid)
            ]
          ],
          λ (name, svc, is, found, target, valid).
              rw ((named name).1 is, found, with_edge_router)
                (target-to_backend svc to port target valid),
        ),
        λ name is missing. rw ((named name).1 is, missing, with_edge_router) refl,
        (
          λ h name is. elim (Option-cases (get_service name s)) [
            | inl f ↦ let e = (named name).1 is in absurd (ground arith)
            | inr (svc, f) ↦ to_backend_kept svc (rw ((named name).1 is, f, with_edge_router) at h)
          ],
          λ none_named. elim (Option-cases (edge_service_name (without_port host))) [
            | inl e ↦ rw (e, with_edge_router) refl
            | inr (name, e) ↦ absurd (none_named name ((named name).0 e))
          ],
        ),
      )
