-- ===== src/Store/Sandboxes.antt =====
-- store.go: sandboxes, their base policy with its revisions, and their attached providers.
use Prim.Native.String.{len}
use osg_gateway.Base.{
  ℕ, ◌-◌, String, Bool, true, false, ◌&&◌, Option, none, some, List, [], ◌∷◌, ◌++◌, ◌==◌, ok, err,
  if◌then◌else◌, neg, length, drop, ltb, retain, Result,
}
use osg_gateway.Base.Int.{ℤ, pos, is_zero, is_pos, inc, eq_int}
use osg_gateway.Base.GoMap.{lookup, insert, delete, delete_if}
use osg_gateway.Store.Records.{Time, PolicyRevision, Sandbox}
use osg_gateway.Store.Io.{
  Env, Error, sandbox_not_found, revision_not_found, Store, Outcome, flush_locked, fail, edit,
}

-- len(l) == 0
abbrev pub is_nil {ℓ} : {A : Type ℓ} → List A → Bool
is_nil [] = true
is_nil (x ∷ xs) = false

-- The fields that an update leaves out are taken from the record before it.
unfoldable pub keep_previous : Sandbox → Sandbox → Sandbox
keep_previous prev sb = record sb {
  attached_providers =
      if is_nil sb.attached_providers && neg (is_nil prev.attached_providers)
      then prev.attached_providers
      else sb.attached_providers;
  base_policy_yaml =
      if sb.base_policy_yaml == "" && neg (prev.base_policy_yaml == "")
      then prev.base_policy_yaml
      else sb.base_policy_yaml;
  policy_rev =
      if is_zero sb.policy_rev && is_pos prev.policy_rev then prev.policy_rev else sb.policy_rev;
  policy_revisions =
      if is_nil sb.policy_revisions && neg (is_nil prev.policy_revisions)
      then prev.policy_revisions
      else sb.policy_revisions;
}

abbrev pub keep_found : Option Sandbox → Sandbox → Sandbox
keep_found none sb = sb
keep_found (some prev) sb = keep_previous prev sb

-- s.state.Sandboxes[name] = sb
abbrev pub put_sandbox : String → Sandbox → Store → Store
put_sandbox name sb = edit (λ st. record st { sandboxes = insert name sb st.sandboxes })

unfoldable pub upsert_sandbox : Sandbox → Env → Store → Outcome (Unit {0})
unfolding keep_previous
upsert_sandbox sb env s =
    let kept = keep_found (lookup sb.name s.state.sandboxes) sb in
    flush_locked env (put_sandbox sb.name (record kept { updated_at = env.now }) s)

-- The tokens and the SSH sessions of the sandbox go with it.
unfoldable pub delete_sandbox : String → Env → Store → Outcome (Unit {0})
delete_sandbox name env s = flush_locked env (
    edit
      (λ st. record st {
        sandboxes = delete name st.sandboxes;
        sandbox_tokens = delete name st.sandbox_tokens;
        ssh_sessions = delete_if (λ e. e.1.sandbox == name) st.ssh_sessions;
      })
      s)

unfoldable pub get_sandbox : String → Store → Option Sandbox
get_sandbox name s = lookup name s.state.sandboxes

abbrev pub max_policy_revisions : ℕ
max_policy_revisions = 32

abbrev pub policy_status_loaded : String
policy_status_loaded = "loaded"

-- The newest `max_policy_revisions` entries.
unfoldable pub cap_revisions : List PolicyRevision → List PolicyRevision
cap_revisions revs =
    if ltb max_policy_revisions (length revs)
    then drop (length revs - max_policy_revisions) revs
    else revs

unfoldable pub load_policy : String → Time → Sandbox → Sandbox
unfolding cap_revisions
load_policy yaml now sb =
    let rev = inc sb.policy_rev in
    record sb {
      base_policy_yaml = yaml;
      updated_at = now;
      policy_rev = rev;
      policy_revisions = cap_revisions (
          sb.policy_revisions
          ++ record {
            rev = rev;
            updated_at = now;
            bytes = pos (len yaml);
            status = policy_status_loaded;
            yaml = yaml;
          }
            ∷ []);
    }

unfoldable pub set_base_policy : String → String → Env → Store → Outcome (Unit {0})
set_base_policy sandbox yaml env s = elim (lookup sandbox s.state.sandboxes) [
  | none ↦ fail (sandbox_not_found sandbox) s
  | some sb ↦ flush_locked env (put_sandbox sandbox (load_policy yaml env.now sb) s)
]

unfoldable pub list_policy_revisions : String → Store → Result Error (List PolicyRevision)
list_policy_revisions sandbox s = elim (lookup sandbox s.state.sandboxes) [
  | none ↦ err (sandbox_not_found sandbox)
  | some sb ↦ ok sb.policy_revisions
]

-- The first entry with the number.
unfoldable pub find_revision : ℤ → List PolicyRevision → Option PolicyRevision
find_revision rev [] = none
find_revision rev (r ∷ revs) = if eq_int r.rev rev then some r else find_revision rev revs

abbrev pub or_missing : String → ℤ → Option PolicyRevision → Result Error PolicyRevision
or_missing sandbox rev none = err (revision_not_found sandbox rev)
or_missing sandbox rev (some r) = ok r

unfoldable pub get_policy_revision : String → ℤ → Store → Result Error PolicyRevision
unfolding find_revision
get_policy_revision sandbox rev s = elim (lookup sandbox s.state.sandboxes) [
  | none ↦ err (sandbox_not_found sandbox)
  | some sb ↦ or_missing sandbox rev (find_revision rev sb.policy_revisions)
]

unfoldable pub contains : String → List String → Bool
contains x [] = false
contains x (y ∷ ys) = if y == x then true else contains x ys

-- A provider that is attached already changes nothing, and is not written again.
unfoldable pub attach_provider : String → String → Env → Store → Outcome (Unit {0})
unfolding contains
attach_provider sandbox provider env s = elim (lookup sandbox s.state.sandboxes) [
  | none ↦ fail (sandbox_not_found sandbox) s
  | some sb ↦
      if contains provider sb.attached_providers
      then (ok tt, s)
      else flush_locked env (
          put_sandbox sandbox
            (record sb {
              attached_providers = sb.attached_providers ++ provider ∷ [];
              updated_at = env.now;
            })
            s)
]

unfoldable pub detach_provider : String → String → Env → Store → Outcome (Unit {0})
unfolding retain
detach_provider sandbox provider env s = elim (lookup sandbox s.state.sandboxes) [
  | none ↦ fail (sandbox_not_found sandbox) s
  | some sb ↦ flush_locked env (
      put_sandbox sandbox
        (record sb {
          attached_providers = retain (λ p. neg (p == provider)) sb.attached_providers;
          updated_at = env.now;
        })
        s)
]
