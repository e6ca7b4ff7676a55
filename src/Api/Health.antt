-- ===== src/Api/Health.antt =====
-- The health check and the life of the application in payment-system/app/main.py. Closing the Redis
-- client and disposing of the engine are parameters.
use payment_system.Base.{
  ◌≡◌, ◌≢◌, refl, String, ◌⊎◌, inl, inr, Bool, true, false, List, ◌∷◌, if◌then◌else◌, arith,
}
use payment_system.Core.Exec.{Result, ok, err, Exec, pure, on_error, resume, ◌>>=◌, ◌>>◌}
use payment_system.Core.Outcome.{Returns}
use payment_system.Core.Settings.{Settings}
use payment_system.Cache.Redis.{Texts, Redis}
use payment_system.Cache.Manager.{is_healthy}

pub record Health : Type 0 where
  pub status : String
  pub service : String
  pub version : String
  pub redis : String

-- The lines that the application logs about itself.
pub data Message : Type 0 where
  starting redis_connected redis_unavailable shutting_down shutdown_complete : Message

pub record Process (R E : Type 0) : Type 0 where
  pub server : R
  pub engine : E
  -- the last line first
  pub log : List Message

module _ {R E : Type 0} where
  abbrev pub say : Message → Exec (Process R E) (Unit {0})
  say m p = (ok tt, record p { log = m ∷ p.log })

  abbrev pub at_server : {A : Type 0} → Exec R A → Exec (Process R E) A
  at_server m p = let (r, s) = m p.server in (r, record p { server = s })

  abbrev pub at_engine : {A : Type 0} → Exec E A → Exec (Process R E) A
  at_engine m p = let (r, s) = m p.engine in (r, record p { engine = s })

abbrev health_of : Settings → Bool → Health
health_of settings redis_ok = record {
  status = "healthy";
  service = settings.app_name;
  version = "1.0.0";
  redis = if redis_ok then "connected" else "disconnected";
}

module _ (texts : Texts) (redis : Redis) where
  open redis use {Server, ping}

  unfoldable pub health_check : Settings → Exec Server Health
  unfolding is_healthy
  health_check settings = do redis_ok ← is_healthy texts redis; pure (health_of settings redis_ok)

  -- The two halves of `lifespan`, before and after its `yield`.
  unfoldable pub startup : {E : Type 0} → Exec (Process Server E) (Unit {0})
  unfolding is_healthy
  startup = do
    say starting
    redis_ok ← at_server (is_healthy texts redis)
    say (if redis_ok then redis_connected else redis_unavailable)

  unfoldable pub shutdown :
      {E : Type 0} → Exec Server (Unit {0}) → Exec E (Unit {0}) → Exec (Process Server E) (Unit {0})
  shutdown close dispose = do
    say shutting_down
    at_server close
    at_engine dispose
    say shutdown_complete

  -- Redis counts as connected exactly if it answered the PING with true.
  abbrev pub Agrees : Result Bool → Bool → Type 0
  Agrees pong connected =
      ((connected ≡ true) × (pong ≡ ok true)) ⊎ ((connected ≡ false) × (pong ≢ ok true))

  abbrev pub Checked : Settings → Result Bool → Health → Type 0
  Checked settings pong h =
      (h.status ≡ "healthy")
      × (h.service ≡ settings.app_name)
      × ((connected : Bool) × Agrees pong connected
          × (h.redis ≡ (if connected then "connected" else "disconnected")))

  abbrev pub Started : {E : Type 0} → Result Bool → Process Server E → Process Server E → Type 0
  Started pong p p' =
      (p'.engine ≡ p.engine)
      × ((connected : Bool) × Agrees pong connected
          × (p'.log
              ≡ (if connected then redis_connected else redis_unavailable) ∷ starting ∷ p.log))

  checked :
      (pong : Result Bool) (s : Server) (settings : Settings)
      → Returns
          (λ h _. Checked settings pong h)
          (resume
            (on_error (pong, s) (λ _. pure false))
            (λ redis_ok. pure (health_of settings redis_ok)))
  checked (ok true) s settings = (refl, refl, (true, inl (refl, refl), refl))
  checked (ok false) s settings = (refl, refl, (false, inr (refl, ground arith), refl))
  checked (err e) s settings = (refl, refl, (false, inr (refl, ground arith), refl))

  started :
      {E : Type 0} (pong : Result Bool × Server) (p : Process Server E)
      → Returns
          (λ _ p'. Started pong.0 p p')
          (resume
            (at_server (λ _. on_error pong (λ _. pure false)) (record p { log = starting ∷ p.log }))
            (λ redis_ok. say (if redis_ok then redis_connected else redis_unavailable)))
  started (ok true, s) p = (refl, (true, inl (refl, refl), refl))
  started (ok false, s) p = (refl, (false, inr (refl, ground arith), refl))
  started (err e, s) p = (refl, (false, inr (refl, ground arith), refl))

  -- Whatever Redis does, the application starts and the health check answers. Both tell that Redis is
  -- connected exactly if it answered the PING with true, and the start leaves the engine alone.
  pub startup-health_check :
      {E : Type 0} (settings : Settings) (s : Server) (p : Process Server E)
      → Returns (λ h _. Checked settings (ping s).0 h) (health_check settings s)
        × Returns (λ _ p'. Started (ping p.server).0 p p') (startup p)
  unfolding health_check startup is_healthy
  startup-health_check settings s p =
      (checked (ping s).0 (ping s).1 settings, started (ping p.server) p)
