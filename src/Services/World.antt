-- ===== src/Services/World.antt =====
-- What a request handler works on: its database session and the Redis server.
use payment_system.Base.{◌≡◌, refl}
use payment_system.Core.Exceptions.{Exception}
use payment_system.Core.Exec.{Result, ok, err, Exec, resume, ◌>>=◌}
use payment_system.Core.Outcome.{Outcome, Returns}

pub record World (S R : Type 0) : Type 0 where
  pub session : S
  pub server : R

module _ {S R A : Type 0} where
  abbrev pub with_session : Result A × S → World S R → Result A × World S R
  with_session (r, s) w = (r, record w { session = s })

  abbrev pub with_server : Result A × R → World S R → Result A × World S R
  with_server (r, c) w = (r, record w { server = c })

  abbrev pub on_session : Exec S A → Exec (World S R) A
  on_session m w = with_session (m w.session) w

  abbrev pub on_server : Exec R A → Exec (World S R) A
  on_server m w = with_server (m w.server) w

module _ {S R A B : Type 0} where
  with_session-bind :
      (P : A → S → Type 0) (E : Exception → S → Type 0) (Q : B → World S R → Type 0)
      (F : Exception → World S R → Type 0) (r : Result A × S) (w : World S R)
      (f : A → Exec (World S R) B)
      → Outcome P E r
      → ((a : A) (s : S) → P a s → Outcome Q F (f a (record w { session = s })))
      → ((e : Exception) (s : S) → E e s → F e (record w { session = s }))
      → Outcome Q F (resume (with_session r w) f)
  with_session-bind P E Q F (ok a, s) w f h p e = p a s h
  with_session-bind P E Q F (err x, s) w f h p e = e x s h

  with_server-bind :
      (P : A → R → Type 0) (E : Exception → R → Type 0) (Q : B → World S R → Type 0)
      (F : Exception → World S R → Type 0) (r : Result A × R) (w : World S R)
      (f : A → Exec (World S R) B)
      → Outcome P E r
      → ((a : A) (c : R) → P a c → Outcome Q F (f a (record w { server = c })))
      → ((e : Exception) (c : R) → E e c → F e (record w { server = c }))
      → Outcome Q F (resume (with_server r w) f)
  with_server-bind P E Q F (ok a, c) w f h p e = p a c h
  with_server-bind P E Q F (err x, c) w f h p e = e x c h

  -- A call on one of the two, and what follows it.
  pub on_session-bind :
      (P : A → S → Type 0) (E : Exception → S → Type 0) (Q : B → World S R → Type 0)
      (F : Exception → World S R → Type 0) (m : Exec S A) (w : World S R)
      (f : A → Exec (World S R) B)
      → Outcome P E (m w.session)
      → ((a : A) (s : S) → P a s → Outcome Q F (f a (record w { session = s })))
      → ((e : Exception) (s : S) → E e s → F e (record w { session = s }))
      → Outcome Q F ((on_session m >>= f) w)
  on_session-bind P E Q F m w = with_session-bind P E Q F (m w.session) w

  pub on_server-bind :
      (P : A → R → Type 0) (E : Exception → R → Type 0) (Q : B → World S R → Type 0)
      (F : Exception → World S R → Type 0) (m : Exec R A) (w : World S R)
      (f : A → Exec (World S R) B)
      → Outcome P E (m w.server)
      → ((a : A) (c : R) → P a c → Outcome Q F (f a (record w { server = c })))
      → ((e : Exception) (c : R) → E e c → F e (record w { server = c }))
      → Outcome Q F ((on_server m >>= f) w)
  on_server-bind P E Q F m w = with_server-bind P E Q F (m w.server) w

module _ {S R A : Type 0} where
  only_server :
      (P : A → R → Type 0) (r : Result A × R) (w : World S R)
      → Returns P r
      → Returns (λ a w'. P a w'.server × (w'.session ≡ w.session)) (with_server r w)
  only_server P (ok a, c) w h = (h, refl)
  only_server P (err x, c) w h = h

  -- A call on the server that never raises leaves the session as it is.
  pub on_server-Returns :
      (P : A → R → Type 0) (m : Exec R A) (w : World S R)
      → Returns P (m w.server)
      → Returns (λ a w'. P a w'.server × (w'.session ≡ w.session)) (on_server m w)
  on_server-Returns P m w = only_server P (m w.server) w

  last_server :
      (P : A → R → Type 0) (E : Exception → R → Type 0) (Q : A → World S R → Type 0)
      (F : Exception → World S R → Type 0) (r : Result A × R) (w : World S R)
      → Outcome P E r
      → ((a : A) (c : R) → P a c → Q a (record w { server = c }))
      → ((e : Exception) (c : R) → E e c → F e (record w { server = c }))
      → Outcome Q F (with_server r w)
  last_server P E Q F (ok a, c) w h p e = p a c h
  last_server P E Q F (err x, c) w h p e = e x c h

  -- A call on the server with nothing after it.
  pub on_server-last :
      (P : A → R → Type 0) (E : Exception → R → Type 0) (Q : A → World S R → Type 0)
      (F : Exception → World S R → Type 0) (m : Exec R A) (w : World S R)
      → Outcome P E (m w.server)
      → ((a : A) (c : R) → P a c → Q a (record w { server = c }))
      → ((e : Exception) (c : R) → E e c → F e (record w { server = c }))
      → Outcome Q F (on_server m w)
  on_server-last P E Q F m w = last_server P E Q F (m w.server) w

module _ {S R A B : Type 0} where
  -- A call on the session that returns, and what follows it.
  pub session_step :
      (P : A → S → Type 0) (Q : B → World S R → Type 0) (m : Exec S A) (w : World S R)
      (f : A → Exec (World S R) B)
      → Returns P (m w.session)
      → ((x : A) (s : S) → P x s → Returns Q (f x (record w { session = s })))
      → Returns Q ((on_session m >>= f) w)
  session_step P Q m w f h p = on_session-bind P (λ _ _. ⊥) Q (λ _ _. ⊥) m w f h p (λ _ _ x. x)
