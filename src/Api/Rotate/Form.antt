-- ===== src/Api/Rotate/Form.antt =====
-- What a request to an OAuth token endpoint carries, of the material of a credential.
use osg_gateway.Base.{
  String, false, ◌≡◌, ◌≢◌, ◌⊎◌, refl, sym, ◌∙◌, inl, inr, arith, none, some, Option, [], ◌∷◌, ok,
  if◌then◌else◌, Bool-cases, eq_iff, false≢true, ◌==◌, ◌&&◌, neg,
}
use osg_gateway.Base.GoMap.{GoMap, lookup, insert, lookup-insert, lookup-insert_self}
use osg_gateway.Http.{trim_space}
use osg_gateway.Api.Rotate.{TokenRequest, set_unless_empty, value_at, first_non_empty, grant_form}

-- The text under the first key, or under the second where that is blank, and it is not blank.
abbrev pub IsFirst : String → String → Option (GoMap String) → String → Type 0
IsFirst key other material text =
    (text ≢ "")
    × ((trim_space (value_at key material) ≢ "") × (text ≡ trim_space (value_at key material))
        ⊎ (trim_space (value_at key material) ≡ "") × (text ≡ trim_space (value_at other material)))

-- The form has the text under the key, unless it is empty.
abbrev pub IsSent : String → String → GoMap String → Type 0
IsSent key text form =
    (text ≡ "") × (lookup key form ≡ none) ⊎ (text ≢ "") × (lookup key form ≡ some text)

-- The form has the refresh token where that is the grant, and none where the grant is the client's.
abbrev pub IsToken : Option (GoMap String) → String → GoMap String → Type 0
IsToken material grant form =
    (grant ≡ "refresh_token")
      × ((t : String) × IsFirst "refresh_token" "refresh_token_value" material t
          × (lookup "refresh_token" form ≡ some t))
    ⊎ (grant ≡ "client_credentials") × (lookup "refresh_token" form ≡ none)

-- The client of the Basic authentication: both texts, where none is empty and the material asks for
-- it, or else nobody.
abbrev pub IsBasic : Option (GoMap String) → Option (String × String) → Type 0
IsBasic material b =
    (trim_space (value_at "client_id" material) ≢ "")
      × (trim_space (value_at "client_secret" material) ≢ "")
      × (value_at "auth_style" material ≡ "basic")
      × (b
          ≡ some (
            trim_space (value_at "client_id" material),
            trim_space (value_at "client_secret" material),
          ))
    ⊎ ((trim_space (value_at "client_id" material) ≡ "")
        ⊎ (trim_space (value_at "client_secret" material) ≡ "")
        ⊎ (value_at "auth_style" material ≢ "basic"))
      × (b ≡ none)

-- A request for a grant: its URL, the grant and what it needs, the client and the scope in the
-- form, and the client in the Basic authentication where the material asks for that.
pub record IsRequest (material : Option (GoMap String)) (grant : String) (req : TokenRequest)
    : Type 0 where
  pub url : IsFirst "token_url" "token_uri" material req.url
  pub grant_type : lookup "grant_type" req.form ≡ some grant
  pub token : IsToken material grant req.form
  pub id : IsSent "client_id" (trim_space (value_at "client_id" material)) req.form
  pub secret : IsSent "client_secret" (trim_space (value_at "client_secret" material)) req.form
  pub scope : IsSent "scope" (trim_space (value_at "scope" material)) req.form
  pub basic : IsBasic material req.basic

pub test_ne : (s t : String) → (s == t) ≡ false → s ≢ t
test_ne s t e h = false≢true (sym e ∙ (eq_iff s t).1 h)

pub first_of :
    (key other : String) (material : Option (GoMap String))
    → trim_space (first_non_empty (value_at key material ∷ value_at other material ∷ [])) ≢ ""
    → IsFirst key other material
        (trim_space (first_non_empty (value_at key material ∷ value_at other material ∷ [])))
unfolding first_non_empty trim_space
first_of key other material ne = elim (Bool-cases (trim_space (value_at key material) == "")) [
  | inr e ↦ (ne, inl (test_ne _ _ e, rw e refl))
  | inl e ↦ elim (Bool-cases (trim_space (value_at other material) == "")) [
    | inl f ↦ absurd (ne (rw (e, f) refl))
    | inr f ↦ (ne, inr ((eq_iff _ _).0 e, rw (e, f) refl))
  ]
]

lookup_kept :
    (k j v : String) (m : GoMap String)
    → (k == j) ≡ false
    → lookup j (set_unless_empty k v m) ≡ lookup j m
lookup_kept k j v m h = ground (arith, lookup-insert k j v m)

set-IsSent :
    (key text : String) (form : GoMap String)
    → lookup key form ≡ none
    → IsSent key text (set_unless_empty key text form)
set-IsSent key text form missing = elim (Bool-cases (text == "")) [
  | inl e ↦ inl ((eq_iff text "").0 e, rw e missing)
  | inr e ↦ inr (test_ne text "" e, rw e (lookup-insert_self key text form))
]

-- What the grant adds to the form.
pub grant_form_lem :
    (grant : String) (material : Option (GoMap String)) (form : GoMap String)
    → grant_form grant material ≡ ok form
    → (grant ≡ "refresh_token")
        × ((t : String) × IsFirst "refresh_token" "refresh_token_value" material t
            × (form ≡ insert "refresh_token" t (insert "grant_type" grant [])))
      ⊎ (grant ≡ "client_credentials") × (form ≡ insert "grant_type" grant [])
unfolding grant_form
grant_form_lem grant material form h = elim (Bool-cases (grant == "refresh_token")) [
  | inl e ↦
      let t = trim_space (
        first_non_empty
          (value_at "refresh_token" material ∷ value_at "refresh_token_value" material ∷ [])) in
      elim (Bool-cases (t == "")) [
        | inl f ↦ absurd (ground arith)
        | inr f ↦ inl (
          (eq_iff _ _).0 e,
          (
            t,
            first_of "refresh_token" "refresh_token_value" material (test_ne t "" f),
            ground arith,
          ),
        )
      ]
  | inr e ↦ elim (Bool-cases (grant == "client_credentials")) [
    | inl f ↦ inr ((eq_iff _ _).0 f, ground arith)
    | inr f ↦ absurd (ground arith)
  ]
]

module _ (material : Option (GoMap String)) where
  abbrev pub client_id : String
  client_id = trim_space (value_at "client_id" material)

  abbrev pub client_secret : String
  client_secret = trim_space (value_at "client_secret" material)

  abbrev pub scope_of : String
  scope_of = trim_space (value_at "scope" material)

  -- The form that is posted, of the grant's.
  abbrev pub posted : GoMap String → GoMap String
  posted form =
      set_unless_empty "client_secret" client_secret
        (set_unless_empty "client_id" client_id (set_unless_empty "scope" scope_of form))

  pub other_kept :
      (key : String) (form : GoMap String)
      → ("client_secret" == key) ≡ false
      → ("client_id" == key) ≡ false
      → ("scope" == key) ≡ false
      → lookup key (posted form) ≡ lookup key form
  other_kept key form a b c =
      lookup_kept "client_secret" key client_secret
        (set_unless_empty "client_id" client_id (set_unless_empty "scope" scope_of form)) a
      ∙ lookup_kept "client_id" key client_id (set_unless_empty "scope" scope_of form) b
      ∙ lookup_kept "scope" key scope_of form c

  pub id-IsSent :
      (form : GoMap String)
      → lookup "client_id" form ≡ none
      → IsSent "client_id" client_id (posted form)
  id-IsSent form missing =
      let m = set_unless_empty "scope" scope_of form in
      rw
        (lookup_kept "client_secret" "client_id" client_secret
          (set_unless_empty "client_id" client_id m) refl)
        (set-IsSent "client_id" client_id m
          (lookup_kept "scope" "client_id" scope_of form refl ∙ missing))

  pub secret-IsSent :
      (form : GoMap String)
      → lookup "client_secret" form ≡ none
      → IsSent "client_secret" client_secret (posted form)
  secret-IsSent form missing =
      let m = set_unless_empty "scope" scope_of form in
      set-IsSent "client_secret" client_secret (set_unless_empty "client_id" client_id m) (
        lookup_kept "client_id" "client_secret" client_id m refl
        ∙ lookup_kept "scope" "client_secret" scope_of form refl
        ∙ missing)

  pub scope-IsSent :
      (form : GoMap String) → lookup "scope" form ≡ none → IsSent "scope" scope_of (posted form)
  scope-IsSent form missing =
      let m = set_unless_empty "scope" scope_of form in
      rw
        (
          lookup_kept "client_secret" "scope" client_secret
              (set_unless_empty "client_id" client_id m) refl,
          lookup_kept "client_id" "scope" client_id m refl,
        )
        (set-IsSent "scope" scope_of form missing)

  pub IsBasic-of :
      (b : Option (String × String))
      → b ≡ (
          if neg (client_id == "")
            && neg (client_secret == "")
            && value_at "auth_style" material == "basic"
          then some (client_id, client_secret)
          else none)
      → IsBasic material b
  IsBasic-of b h = elim (Bool-cases (client_id == "")) [
    | inl e ↦ inr (inl ((eq_iff _ _).0 e), h ∙ rw e refl)
    | inr e ↦ elim (Bool-cases (client_secret == "")) [
      | inl f ↦ inr (inr (inl ((eq_iff _ _).0 f)), h ∙ rw (e, f) refl)
      | inr f ↦ elim (Bool-cases (value_at "auth_style" material == "basic")) [
        | inl g ↦ inl (test_ne _ _ e, test_ne _ _ f, (eq_iff _ _).0 g, h ∙ rw (e, f, g) refl)
        | inr g ↦ inr (inr (inr (test_ne _ _ g)), h ∙ rw (e, f, g) refl)
      ]
    ]
  ]
