-- ===== src/Store/Revisions.antt =====
-- The policy history of a sandbox.
use Prim.Native.String.{len}
use mathlib.Core.Path.{subst}
use osg_gateway.Base.{
  ℕ, ◌+◌, ◌-◌, ◌≤◌, ◌<◌, String, true, false, ◌≡◌, refl, ◌∙◌, ap, inl, inr, some, List, [], ◌∷◌,
  ◌++◌, append_assoc, arith, length, drop, ltb, All, All-map, All-append, All-drop, Bool-cases,
  length-append, drop-append, ok, newest, newest-append,
}
use osg_gateway.Base.Int.{ℤ, pos, negsuc, eq_int, inc, max_int64}
use osg_gateway.Base.GoMap.{lookup, lookup-insert_self}
use osg_gateway.Store.Records.{Time, PolicyRevision, Sandbox}
use osg_gateway.Store.Io.{Env, Store, state-flush_locked}
use osg_gateway.Store.Sandboxes.{
  cap_revisions, load_policy, set_base_policy, find_revision, get_policy_revision, get_sandbox,
}

cap_revisions_lem : (revs : List PolicyRevision) → cap_revisions revs ≡ newest 32 revs
unfolding cap_revisions
cap_revisions_lem revs = elim (Bool-cases (ltb 32 (length revs))) [
  | inl e ↦ rw e
  | inr e ↦ let none_over : length revs - 32 ≡ 0 = ground arith in rw (e, none_over)
]

-- The sandbox after its base policy was set to each text in turn, at the times that go with them.
unfoldable pub load_all : List (String × Time) → Sandbox → Sandbox
load_all [] sb = sb
load_all ((yaml, now) ∷ loads) sb = load_all loads (load_policy yaml now sb)

abbrev pub entry : ℤ → String × Time → PolicyRevision
entry rev (yaml, now) = record {
  rev = rev;
  updated_at = now;
  bytes = pos (len yaml);
  status = "loaded";
  yaml = yaml;
}

-- The revisions that those loads append, numbered on from `rev`.
unfoldable pub history : ℤ → List (String × Time) → List PolicyRevision
history rev [] = []
history rev (load ∷ loads) = entry (inc rev) load ∷ history (inc rev) loads

-- However often the base policy of a sandbox is set, at least once, its revisions are the newest 32
-- of those that it had and one for each text, in order, numbered on from its counter.
pub load_all-history :
    (load : String × Time) (loads : List (String × Time)) (sb : Sandbox)
    → (load_all (load ∷ loads) sb).policy_revisions
      ≡ newest 32 (sb.policy_revisions ++ history sb.policy_rev (load ∷ loads))
unfolding load_all load_policy history
load_all-history (yaml, now) [] sb =
    cap_revisions_lem (sb.policy_revisions ++ entry (inc sb.policy_rev) (yaml, now) ∷ [])
load_all-history (yaml, now) (load ∷ loads) sb =
    let before = sb.policy_revisions ++ entry (inc sb.policy_rev) (yaml, now) ∷ [] in
    let after = history (inc sb.policy_rev) (load ∷ loads) in
    load_all-history load loads (load_policy yaml now sb)
    ∙ ap (λ revs. newest 32 (revs ++ after)) (cap_revisions_lem before)
    ∙ newest-append 32 before after
    ∙ ap (newest 32)
        (append_assoc sb.policy_revisions (entry (inc sb.policy_rev) (yaml, now) ∷ []) after)

find_revision-append :
    (rev : ℤ) (revs : List PolicyRevision) (r : PolicyRevision)
    → All (λ x. eq_int x.rev rev ≡ false) revs
    → eq_int r.rev rev ≡ true
    → find_revision rev (revs ++ r ∷ []) ≡ some r
unfolding find_revision
find_revision-append rev [] r h e = rw e
find_revision-append rev (x ∷ revs) r (n, h) e = rw n (find_revision-append rev revs r h e)

eq_int_refl : (a : ℤ) → eq_int a a ≡ true
eq_int_refl (pos n) = ground arith
eq_int_refl (negsuc n) = ground arith

find_revision-load_policy :
    (yaml : String) (now : Time) (sb : Sandbox)
    → All (λ r. eq_int r.rev (inc sb.policy_rev) ≡ false) sb.policy_revisions
    → find_revision (inc sb.policy_rev) (load_policy yaml now sb).policy_revisions
      ≡ some (entry (inc sb.policy_rev) (yaml, now))
unfolding load_policy
find_revision-load_policy yaml now sb h =
    let rev = inc sb.policy_rev in
    let r = entry rev (yaml, now) in
    let revs = sb.policy_revisions in
    let fits : length (revs ++ r ∷ []) - 32 ≤ length revs =
      omega (arith, length-append revs (r ∷ [])) in
    ap (find_revision rev) (
      cap_revisions_lem (revs ++ r ∷ [])
      ∙ drop-append (length (revs ++ r ∷ []) - 32) revs (r ∷ []) fits)
    ∙ find_revision-append rev (drop (length (revs ++ r ∷ []) - 32) revs) r
        (All-drop _ (length (revs ++ r ∷ []) - 32) revs h) (eq_int_refl rev)

-- The counter stands at `n`, below its largest value, and no revision has a number above it.
pub record IsNumbered (n : ℕ) (sb : Sandbox) : Type 0 where
  pub counter : sb.policy_rev ≡ pos n
  pub room : n < max_int64
  pub below : All (λ r. (k : ℕ) × (r.rev ≡ pos k) × (k ≤ n)) sb.policy_revisions

inc_lem : (n : ℕ) → n < max_int64 → inc (pos n) ≡ pos (n + 1)
inc_lem n h = ground arith

fresh_number :
    (n : ℕ) (sb : Sandbox)
    → IsNumbered n sb
    → All (λ r. eq_int r.rev (inc sb.policy_rev) ≡ false) sb.policy_revisions
fresh_number n sb h =
    All-map _ _ (λ r q. rw (h.counter, inc_lem n h.room, q.1) (ground (arith, q.2)))
      sb.policy_revisions h.below

load_policy-IsNumbered :
    (n : ℕ) (yaml : String) (now : Time) (sb : Sandbox)
    → IsNumbered n sb
    → n + 1 < max_int64
    → IsNumbered (n + 1) (load_policy yaml now sb)
unfolding load_policy
load_policy-IsNumbered n yaml now sb h room =
    let number = ap inc h.counter ∙ inc_lem n h.room in
    let r = entry (inc sb.policy_rev) (yaml, now) in
    let older =
      All-map _ (λ x. (k : ℕ) × (x.rev ≡ pos k) × (k ≤ n + 1))
        (λ x q. (q.0, q.1, omega (arith, q.2))) sb.policy_revisions h.below in
    record {
      counter = number;
      room = room;
      below = rw cap_revisions_lem (
          All-drop _ (length (sb.policy_revisions ++ r ∷ []) - 32) _
            (All-append _ sb.policy_revisions (r ∷ []) older ((n + 1, number, omega arith), tt)));
    }

pub get_sandbox-set_base_policy :
    (name yaml : String) (sb : Sandbox) (env : Env) (s : Store)
    → lookup name s.state.sandboxes ≡ some sb
    → get_sandbox name (set_base_policy name yaml env s).1 ≡ some (load_policy yaml env.now sb)
unfolding set_base_policy get_sandbox
get_sandbox-set_base_policy name yaml sb env s found =
    rw (found, set_base_policy)
      (rw state-flush_locked (lookup-insert_self name _ s.state.sandboxes))

get_policy_revision_of_found :
    (name : String) (rev : ℤ) (sb : Sandbox) (r : PolicyRevision) (s : Store)
    → get_sandbox name s ≡ some sb
    → find_revision rev sb.policy_revisions ≡ some r
    → get_policy_revision name rev s ≡ ok r
unfolding get_policy_revision get_sandbox
get_policy_revision_of_found name rev sb r s found e = ground arith

-- Setting the base policy of a sandbox whose revisions are numbered up to its counter `n`: the text
-- is the base policy, and is returned under the number n + 1, and the numbers reach n + 1 again.
-- That is so for the state in memory whether the flush meets a fault or not.
pub set_base_policy-get :
    (name yaml : String) (n : ℕ) (sb : Sandbox) (env : Env) (s : Store)
    → lookup name s.state.sandboxes ≡ some sb
    → IsNumbered n sb
    → n + 1 < max_int64
    → let s' = (set_base_policy name yaml env s).1 in
      let sb' = load_policy yaml env.now sb in
      (get_sandbox name s' ≡ some sb')
      × (sb'.base_policy_yaml ≡ yaml)
      × (get_policy_revision name (pos (n + 1)) s' ≡ ok (entry (pos (n + 1)) (yaml, env.now)))
      × IsNumbered (n + 1) sb'
unfolding load_policy
set_base_policy-get name yaml n sb env s found h room =
    let number = ap inc h.counter ∙ inc_lem n h.room in
    let stored = get_sandbox-set_base_policy name yaml sb env s found in
    let loaded = find_revision-load_policy yaml env.now sb (fresh_number n sb h) in
    (
      stored,
      refl,
      get_policy_revision_of_found name (pos (n + 1)) (load_policy yaml env.now sb) _ _ stored (
          subst
            (λ rev.
              find_revision rev (load_policy yaml env.now sb).policy_revisions
              ≡ some (entry rev (yaml, env.now)))
            number loaded),
      load_policy-IsNumbered n yaml env.now sb h room,
    )
