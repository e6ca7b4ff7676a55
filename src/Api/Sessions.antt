-- ===== src/Api/Sessions.antt =====
-- The lifetime of a session: `get_db` of payment-system/app/core/database.py, which opens one for each
-- request and closes it at the end, also after an exception. With its part of the interface to
-- SQLAlchemy.
use payment_system.Base.{◌≡◌}
use payment_system.Core.Exceptions.{Exception}
use payment_system.Core.Exec.{Result, ok, err, Exec}
use payment_system.Core.Outcome.{IsUnexpected, Outcome}
use payment_system.Store.Database.{Database}
use payment_system.Services.World.{World}

pub record Sessions (db : Database) : Type 0 where
  -- `async_session_factory()`, on the database as the given session last saw it
  pub open_session : db.Session → db.Session
  -- `await session.close()`
  pub close : Exec db.Session (Unit {0})
  pub open_session_law :
      (s : db.Session)
      → ((db.view (open_session s)).seen ≡ (db.view (open_session s)).durable)
        × db.Others (db.view s).durable (db.view (open_session s)).durable
  pub close_law :
      (s : db.Session)
      → Outcome
          (λ _ s'. db.Others (db.view s).durable (db.view s').durable)
          (λ e s'. IsUnexpected e × db.Others (db.view s).durable (db.view s').durable)
          (close s)

module _ (db : Database) (sessions : Sessions db) where
  open db use {Session, view, Others, others_trans}
  open sessions use {open_session, close}

  -- The `finally` clause closes the session, and the end of `async with` closes it again; an exception
  -- of the second takes the place of one of the first.
  abbrev closed_again :
      Result (Unit {0}) → Result (Unit {0}) × Session → Result (Unit {0}) × Session
  closed_again first (ok u, s) = (first, s)
  closed_again first (err e, s) = (err e, s)

  abbrev close_twice : Exec Session (Unit {0})
  close_twice s = let (first, s₁) = close s in closed_again first (close s₁)

  closed_again_law :
      (first : Result (Unit {0})) (s : Session) (r : Result (Unit {0}) × Session)
      → Outcome (λ _ _. Unit {0}) (λ e _. IsUnexpected e) (first, s)
      → Outcome
          (λ _ s'. Others (view s).durable (view s').durable)
          (λ e s'. IsUnexpected e × Others (view s).durable (view s').durable)
          r
      → Outcome
          (λ _ s'. Others (view s).durable (view s').durable)
          (λ e s'. IsUnexpected e × Others (view s).durable (view s').durable)
          (closed_again first r)
  closed_again_law (ok u) s (ok v, s') f h = h
  closed_again_law (err x) s (ok v, s') f h = (f, h)
  closed_again_law first s (err e, s') f h = h

  close_twice_law :
      (s : Session)
      → Outcome
          (λ _ s'. Others (view s).durable (view s').durable)
          (λ e s'. IsUnexpected e × Others (view s).durable (view s').durable)
          (close_twice s)
  close_twice_law s = second (close s) (sessions.close_law s)
    where
      later :
          (s₁ : Session) (r : Result (Unit {0}) × Session)
          → Others (view s).durable (view s₁).durable
          → Outcome
              (λ _ s'. Others (view s₁).durable (view s').durable)
              (λ e s'. IsUnexpected e × Others (view s₁).durable (view s').durable)
              r
          → Outcome
              (λ _ s'. Others (view s).durable (view s').durable)
              (λ e s'. IsUnexpected e × Others (view s).durable (view s').durable)
              r
      later s₁ (ok u, s') o h = others_trans _ _ _ o h
      later s₁ (err e, s') o h = (h.0, others_trans _ _ _ o h.1)

      second :
          (r : Result (Unit {0}) × Session)
          → Outcome
              (λ _ s'. Others (view s).durable (view s').durable)
              (λ e s'. IsUnexpected e × Others (view s).durable (view s').durable)
              r
          → Outcome
              (λ _ s'. Others (view s).durable (view s').durable)
              (λ e s'. IsUnexpected e × Others (view s).durable (view s').durable)
              (closed_again r.0 (close r.1))
      second (ok u, s₁) h =
          closed_again_law (ok u) s (close s₁) tt (later s₁ (close s₁) h (sessions.close_law s₁))
      second (err e, s₁) h =
          closed_again_law (err e) s (close s₁) h.0
            (later s₁ (close s₁) h.1 (sessions.close_law s₁))

module _ (db : Database) (sessions : Sessions db) {R A : Type 0} where
  open db use {Session, view, Others}

  abbrev verdict :
      Result (Unit {0}) × Session → Result A × World Session R → Result A × World Session R
  verdict (ok u, s) (r, w) = (r, record w { session = s })
  verdict (err e, s) (r, w) = (err e, record w { session = s })

  -- A request handler on a session of its own.
  unfoldable pub with_db : Exec (World Session R) A → Exec (World Session R) A
  with_db handler w =
      let (r, w₁) = handler (record w { session = sessions.open_session w.session }) in
      verdict (close_twice db sessions w₁.session) (r, w₁)

  -- What holds at the end of the handler has to be stable under commits of others, and under the
  -- exception of a failing close.
  module _ (P Q : A → World Session R → Type 0) (E F : Exception → World Session R → Type 0)
      (value : (a : A) (w : World Session R) (s : Session)
        → P a w
        → Others (view w.session).durable (view s).durable
        → Q a (record w { session = s }))
      (lost : (a : A) (e : Exception) (w : World Session R) (s : Session)
        → P a w
        → IsUnexpected e
        → Others (view w.session).durable (view s).durable
        → F e (record w { session = s }))
      (raised : (e : Exception) (w : World Session R) (s : Session)
        → E e w
        → Others (view w.session).durable (view s).durable
        → F e (record w { session = s }))
      (replaced : (e₀ e : Exception) (w : World Session R) (s : Session)
        → E e₀ w
        → IsUnexpected e
        → Others (view w.session).durable (view s).durable
        → F e (record w { session = s })) where
    verdict_law :
        (r : Result A) (w : World Session R) (c : Result (Unit {0}) × Session)
        → Outcome P E (r, w)
        → Outcome
            (λ _ s. Others (view w.session).durable (view s).durable)
            (λ e s. IsUnexpected e × Others (view w.session).durable (view s).durable)
            c
        → Outcome Q F (verdict c (r, w))
    verdict_law (ok a) w (ok u, s) h c = value a w s h c
    verdict_law (ok a) w (err e, s) h c = lost a e w s h c.0 c.1
    verdict_law (err e₀) w (ok u, s) h c = raised e₀ w s h c
    verdict_law (err e₀) w (err e, s) h c = replaced e₀ e w s h c.0 c.1

    pub with_db_law :
        (handler : Exec (World Session R) A) (w : World Session R)
        → Outcome P E (handler (record w { session = sessions.open_session w.session }))
        → Outcome Q F (with_db handler w)
    unfolding with_db
    with_db_law handler w h =
        let done = handler (record w { session = sessions.open_session w.session }) in
        verdict_law done.0 done.1 (close_twice db sessions done.1.session) h
          (close_twice_law db sessions done.1.session)
