-- ===== src/Services/Wallets.antt =====
-- `WalletService` of payment-system/app/services/wallet_service.py. Whether a Redis client was
-- given is the argument `client`.
pub mod Found
pub mod Added
pub mod Pending
pub mod TopUp
pub mod Money
pub mod Balance
pub mod Present
pub mod Succeeds
use payment_system.Base.{ℕ, zero, suc, ◌+◌, Bool, true, false, Option, none, some}
use payment_system.Core.Exceptions.{wallet_not_found, optimistic_lock}
use payment_system.Core.Exec.{Exec, pure, raise, or_raise, ◌>>=◌, ◌>>◌}
use payment_system.Models.Wallet.{Uuid, Wallet}
use payment_system.Schemas.Wallet.{WalletResponse, wallet_response}
use payment_system.Store.Database.{Database}
use payment_system.Store.Repositories.{get_by_user_id, update_balance}
use payment_system.Cache.Redis.{Texts, Redis}
use payment_system.Cache.Manager.{
  get_balance, set_balance, invalidate_balance, invalidate_wallet_info,
}
use payment_system.Services.World.{World, on_session, on_server}

abbrev pub max_top_up_retries : ℕ
max_top_up_retries = 3

module _ (db : Database) (texts : Texts) (redis : Redis) where
  open db use {Session, commit, rollback, refresh_wallet}
  open redis use {Server}

  abbrev Action : Type 0 → Type 0
  Action A = Exec (World Session Server) A

  unfoldable pub find_wallet : Uuid → Action Wallet
  find_wallet user_id = do
    wallet ← on_session (get_by_user_id db user_id)
    or_raise wallet_not_found wallet

  -- A cached balance replaces the row's; otherwise the row's balance is cached.
  unfoldable pub cached_balance : Wallet → Option ℕ → Action ℕ
  cached_balance wallet (some cached) = pure cached
  cached_balance wallet none =
      on_server (set_balance texts redis wallet.id wallet.balance) >> pure wallet.balance

  unfoldable pub lookup_balance : Bool → Wallet → Action ℕ
  unfolding cached_balance
  lookup_balance true wallet = do
    cached ← on_server (get_balance texts redis wallet.id)
    cached_balance wallet cached
  lookup_balance false wallet = pure wallet.balance

  -- The source assigns the balance to the row object of the session, which is closed without a commit.
  unfoldable pub get_wallet : Bool → Uuid → Action WalletResponse
  unfolding find_wallet
  get_wallet client user_id = do
    wallet ← find_wallet user_id
    balance ← lookup_balance client wallet
    pure (wallet_response (record wallet { balance = balance }))

  unfoldable pub get_balance_fast : Bool → Uuid → Action ℕ
  unfolding find_wallet
  get_balance_fast client user_id = do wallet ← find_wallet user_id; lookup_balance client wallet

  unfoldable pub invalidate : Bool → Uuid → Action (Unit {0})
  invalidate true wallet_id =
      on_server (invalidate_balance texts redis wallet_id)
      >> on_server (invalidate_wallet_info texts redis wallet_id)
  invalidate false wallet_id = pure tt

  -- After the update: commit, invalidate and return, or roll back and go `again`.
  unfoldable pub settle : Bool → Action WalletResponse → Wallet → Bool → Action WalletResponse
  unfolding invalidate
  settle client again wallet true = do
    on_session commit
    invalidate client wallet.id
    refreshed ← on_session (refresh_wallet wallet)
    pure (wallet_response refreshed)
  settle client again wallet false = on_session rollback >> again

  -- The rounds of the loop that are left. After the last conflict it raises.
  unfoldable pub top_up_attempts : Bool → Uuid → ℕ → ℕ → Action WalletResponse
  unfolding find_wallet settle
  top_up_attempts client user_id amount zero = raise optimistic_lock
  top_up_attempts client user_id amount (suc left) = do
    wallet ← find_wallet user_id
    let new_balance = wallet.balance + amount
    updated ← on_session (update_balance db wallet.id new_balance wallet.version)
    settle client (top_up_attempts client user_id amount left) wallet updated

  unfoldable pub top_up : Bool → Uuid → ℕ → Action WalletResponse
  unfolding top_up_attempts
  top_up client user_id amount = top_up_attempts client user_id amount max_top_up_retries
