-- ===== src/Api/RoundTrip.antt =====
-- A table behind its path: what PUT stores is what GET shows, until DELETE.
use osg_gateway.Base.{
  ℕ, ok, err, String, Bool, true, false, ◌≡◌, refl, ap, sym, ◌∙◌, inl, inr, none, some, Option,
  Bool-cases, if◌then◌else◌, ne→==, false≢true, eq_iff, ◌==◌,
}
use osg_gateway.Base.GoMap.{lookup-insert, lookup-delete}
use osg_gateway.Store.Records.{TemplateRecord, ServiceRecord}
use osg_gateway.Store.Io.{Env, Store, Outcome, state-flush_locked}
use osg_gateway.Store.Registry.{
  set_setting, get_setting, delete_setting, upsert_template, get_template, delete_template,
  upsert_service, get_service, delete_service,
}
use osg_gateway.Http.{Method, method_get, method_put, method_delete, Request}
use osg_gateway.Api.{
  Reply, problem, refuse, a_setting, a_template, a_service, Served, write_or, found, key_of,
  bad_key,
}
use osg_gateway.Api.Tables.{
  setting_call, serve_setting, template_call, serve_template, service_written, service_call,
  serve_service,
}

abbrev pub with_method : Method → Request → Request
with_method m r = record r { method = m }

-- A table of `A` behind the paths below `root`: what GET answers for one path after PUT, and after
-- DELETE, for another; `shown` is the answer of a value that was put.
pub record IsTable {ℓ} {A : Type ℓ} (root : String)
    (serve : Request → Option A → Env → Store → Served) (shown : String → A → Env → Reply)
    : Type ℓ where
  pub after_put :
      (r q : Request) (a : A) (env env' : Env) (s : Store)
      → (serve
          (with_method method_get q)
          none
          env'
          (serve (with_method method_put r) (some a) env s).1).0
        ≡ (if bad_key (key_of root q.path)
            then problem 400
            else if key_of root r.path == key_of root q.path
            then shown (key_of root q.path) a env
            else (serve (with_method method_get q) none env' s).0)
  pub after_delete :
      (r q : Request) (env env' : Env) (s : Store)
      → (serve
          (with_method method_get q)
          none
          env'
          (serve (with_method method_delete r) none env s).1).0
        ≡ (if bad_key (key_of root q.path)
            then problem 400
            else if key_of root r.path == key_of root q.path
            then problem 404
            else (serve (with_method method_get q) none env' s).0)

-- A bad key is none of the good ones.
bad_other :
    (key asked : String) → bad_key key ≡ true → bad_key asked ≡ false → (key == asked) ≡ false
bad_other key asked bad good =
    ne→== key asked (λ e. false≢true (sym good ∙ ap bad_key (sym e) ∙ bad))

-- What is found of an entry that was put in, or taken out.
found_if :
    {A : Type 0} (reply : A → Reply) (b : Bool) (x : A) (o : Option A)
    → found reply (if b then some x else o) ≡ (if b then reply x else found reply o)
found_if reply true x o = refl
found_if reply false x o = refl

missing_if :
    {A : Type 0} (reply : A → Reply) (b : Bool) (o : Option A)
    → found reply (if b then none else o) ≡ (if b then problem 404 else found reply o)
missing_if reply true o = refl
missing_if reply false o = refl

-- Under equal keys either key will do.
same_key :
    (f : String → Reply) (key asked : String) (x : Reply)
    → (if key == asked then f key else x) ≡ (if key == asked then f asked else x)
same_key f key asked x = elim (Bool-cases (key == asked)) [
  | inr e ↦ rw e refl
  | inl e ↦ rw e (ap f ((eq_iff key asked).0 e))
]

module _ {ℓ} {A : Type ℓ} where
  -- The same of a handler that is given the keys.
  record IsCall (call : Method → String → Option A → Env → Store → Served)
      (shown : String → A → Env → Reply) : Type ℓ where
    put_key :
        (key asked : String) (a : A) (env env' : Env) (s : Store)
        → (call method_get asked none env' (call method_put key (some a) env s).1).0
          ≡ (if key == asked then shown asked a env else (call method_get asked none env' s).0)
    delete_key :
        (key asked : String) (env env' : Env) (s : Store)
        → (call method_get asked none env' (call method_delete key none env s).1).0
          ≡ (if key == asked then problem 404 else (call method_get asked none env' s).0)

  abbrev gated :
      String
      → (Method → String → Option A → Env → Store → Served)
      → Request
      → Option A
      → Env
      → Store
      → Served
  gated root call r body env s =
      let key = key_of root r.path in
      if bad_key key then refuse 400 s else call r.method key body env s

  gated-IsTable :
      (root : String) (call : Method → String → Option A → Env → Store → Served)
      (shown : String → A → Env → Reply)
      → IsCall call shown
      → IsTable root (gated root call) shown
  gated-IsTable root call shown h = record {
    after_put = λ r q a env env' s. elim (Bool-cases (bad_key (key_of root q.path))) [
      | inl f ↦ rw f refl
      | inr f ↦ elim (Bool-cases (bad_key (key_of root r.path))) [
        | inl e ↦ rw (f, e, bad_other (key_of root r.path) (key_of root q.path) e f) refl
        | inr e ↦ rw (f, e) (h.put_key (key_of root r.path) (key_of root q.path) a env env' s)
      ]
    ];
    after_delete = λ r q env env' s. elim (Bool-cases (bad_key (key_of root q.path))) [
      | inl f ↦ rw f refl
      | inr f ↦ elim (Bool-cases (bad_key (key_of root r.path))) [
        | inl e ↦ rw (f, e, bad_other (key_of root r.path) (key_of root q.path) e f) refl
        | inr e ↦ rw (f, e) (h.delete_key (key_of root r.path) (key_of root q.path) env env' s)
      ]
    ];
  }

write_or_store : (code : ℕ) (o : Outcome (Unit {0})) → (write_or code o).1 ≡ o.1
write_or_store code (ok u, s) = refl
write_or_store code (err e, s) = refl

module _ (key asked : String) (env : Env) (s : Store) where
  setting_put :
      (v : String)
      → get_setting asked (setting_call method_put key (some v) env s).1
        ≡ (if key == asked then some v else get_setting asked s)
  unfolding get_setting set_setting
  setting_put v =
      rw write_or_store (rw state-flush_locked (lookup-insert key asked v s.state.settings))

  setting_delete :
      get_setting asked (setting_call method_delete key none env s).1
      ≡ (if key == asked then none else get_setting asked s)
  unfolding get_setting delete_setting
  setting_delete =
      rw write_or_store (rw state-flush_locked (lookup-delete key asked s.state.settings))

setting_call-IsCall : IsCall setting_call (λ key v env. a_setting key v)
setting_call-IsCall = record {
  put_key = λ key asked v env env' s.
      ap (found (a_setting asked)) (setting_put key asked env s v)
      ∙ found_if (a_setting asked) (key == asked) _ _;
  delete_key = λ key asked env env' s.
      ap (found (a_setting asked)) (setting_delete key asked env s)
      ∙ missing_if (a_setting asked) (key == asked) _;
}

module _ (key asked : String) (env : Env) (s : Store) where
  template_put :
      (v : TemplateRecord)
      → get_template asked (template_call method_put key (some v) env s).1
        ≡ (if key == asked then some (record v { name = key }) else get_template asked s)
  unfolding get_template upsert_template
  template_put v =
      rw write_or_store (
        rw state-flush_locked (lookup-insert key asked (record v { name = key }) s.state.templates))

  template_delete :
      get_template asked (template_call method_delete key none env s).1
      ≡ (if key == asked then none else get_template asked s)
  unfolding get_template delete_template
  template_delete =
      rw write_or_store (rw state-flush_locked (lookup-delete key asked s.state.templates))

template_call-IsCall : IsCall template_call (λ key v env. a_template (record v { name = key }))
template_call-IsCall = record {
  put_key = λ key asked v env env' s.
      ap (found a_template) (template_put key asked env s v)
      ∙ found_if a_template (key == asked) _ _
      ∙ same_key (λ k. a_template (record v { name = k })) key asked _;
  delete_key = λ key asked env env' s.
      ap (found a_template) (template_delete key asked env s)
      ∙ missing_if a_template (key == asked) _;
}

service_store : (rec : ServiceRecord) (o : Outcome (Unit {0})) → (service_written rec o).1 ≡ o.1
service_store rec (ok u, s) = refl
service_store rec (err e, s) = refl

module _ (key asked : String) (env : Env) (s : Store) where
  service_put :
      (v : ServiceRecord)
      → get_service asked (service_call method_put key (some v) env s).1 ≡ (
          if key == asked
          then some (record v { name = key; updated_at = env.now })
          else get_service asked s)
  unfolding get_service upsert_service
  service_put v = rw service_store (
      rw state-flush_locked
        (lookup-insert key asked (record v { name = key; updated_at = env.now }) s.state.services))

  service_delete :
      get_service asked (service_call method_delete key none env s).1
      ≡ (if key == asked then none else get_service asked s)
  unfolding get_service delete_service
  service_delete =
      rw write_or_store (rw state-flush_locked (lookup-delete key asked s.state.services))

service_call-IsCall :
    IsCall service_call (λ key v env. a_service (record v { name = key; updated_at = env.now }))
service_call-IsCall = record {
  put_key = λ key asked v env env' s.
      ap (found a_service) (service_put key asked env s v)
      ∙ found_if a_service (key == asked) _ _
      ∙ same_key (λ k. a_service (record v { name = k; updated_at = env.now })) key asked _;
  delete_key = λ key asked env env' s.
      ap (found a_service) (service_delete key asked env s) ∙ missing_if a_service (key == asked) _;
}

-- The settings, the templates and the services are tables behind their paths, whatever the disk
-- does. A GET after a PUT with a body answers 400 for a bad key; for the key of the PUT it shows
-- the value that was put, a template and a service under the key as its name, and a service with
-- the time of the PUT; and for another key it answers what it did before. A GET after a DELETE
-- answers 400 for a bad key, 404 for the key that was deleted, and for another key what it did
-- before.
pub tables-IsTable :
    IsTable "/v1/settings/" serve_setting (λ key v env. a_setting key v)
    × IsTable "/v1/templates/" serve_template (λ key v env. a_template (record v { name = key }))
    × IsTable "/v1/services/" serve_service
        (λ key v env. a_service (record v { name = key; updated_at = env.now }))
unfolding serve_setting serve_template serve_service
tables-IsTable = (
  gated-IsTable "/v1/settings/" setting_call _ setting_call-IsCall,
  gated-IsTable "/v1/templates/" template_call _ template_call-IsCall,
  gated-IsTable "/v1/services/" service_call _ service_call-IsCall,
)
