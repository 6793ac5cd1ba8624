-- ===== src/Api/Steps.antt =====
-- A call of the store by a handler: at most one operation, and none where it refuses.
pub mod Handlers
pub mod Providers
pub mod Refresh
use osg_gateway.Base.{
  ℕ, String, Bool, true, false, ◌≡◌, ◌⊎◌, inl, inr, refl, ap, ◌∙◌, arith, none, some, Option, ok,
  err, is_ok, if◌then◌else◌,
}
use osg_gateway.Store.Io.{Env, Store, Outcome}
use osg_gateway.Store.Ops.{Op, run}
use osg_gateway.Store.Errors.{writes_token_file, run_error}
use osg_gateway.Api.{Reply, problem, done, is_refusal, Served, write_or, found}

written :
    (code : ℕ) (o : Outcome (Unit {0}))
    → ((write_or code o).1 ≡ o.1) × (is_refusal (write_or code o).0 ≡ true → is_ok o.0 ≡ false)
written code (ok u, s) = (refl, λ h. absurd (ground arith))
written code (err e, s) = (refl, λ h. refl)

module _ (hash_token : String → String) where
  -- What a handler that began in `s` answers and leaves: the store is that before, or that after
  -- one operation; and that before if the request is refused, by another status than 500, though
  -- the disk works.
  pub record IsStep (env : Env) (s : Store) (p : Served) : Type 0 where
    pub step : (p.1 ≡ s) ⊎ ((op : Op) × (p.1 ≡ (run hash_token op env s).1))
    pub refusal : env.fault ≡ none → is_refusal p.0 ≡ true → p.1 ≡ s

  module _ (env : Env) (s : Store) where
    pub stays-IsStep : (reply : Reply) → IsStep env s (reply, s)
    stays-IsStep reply = record { step = inl refl; refusal = λ fault h. refl }

    pub if-IsStep :
        (b : Bool) (p q : Served)
        → IsStep env s p
        → IsStep env s q
        → IsStep env s (if b then p else q)
    if-IsStep true p q h k = h
    if-IsStep false p q h k = k

    -- An operation, refused at most where it returns an error.
    pub run-IsStep :
        (op : Op) (answer : Outcome (Unit {0}) → Served)
        → writes_token_file op ≡ false
        → ((o : Outcome (Unit {0}))
            → ((answer o).1 ≡ o.1) × (is_refusal (answer o).0 ≡ true → is_ok o.0 ≡ false))
        → IsStep env s (answer (run hash_token op env s))
    run-IsStep op answer plain h = record {
      step = inr (op, (h _).0);
      refusal = λ fault e. (h _).0 ∙ run_error hash_token op env s plain fault ((h _).1 e);
    }

    pub write_or-IsStep :
        (op : Op) (code : ℕ)
        → writes_token_file op ≡ false
        → IsStep env s (write_or code (run hash_token op env s))
    write_or-IsStep op code plain = run-IsStep op (write_or code) plain (written code)
