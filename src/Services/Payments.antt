-- ===== src/Services/Payments.antt =====
-- `send_money` of payment-system/app/services/payment_service.py: the two idempotency checks, the
-- validation, and the retry loop with its exception handlers.
pub mod Outcomes
pub mod Round
pub mod Retries
pub mod Once
pub mod Money
pub mod Repeats
pub mod Resent
pub mod Lost
pub mod Closing
pub mod Undisturbed
pub mod Succeeds
use payment_system.Base.{
  ℕ, zero, suc, Bool, true, false, Option, none, some, [], ◌∷◌, ◌==◌, if◌then◌else◌,
}
use payment_system.Core.Exceptions.{
  Exception, wallet_not_found, duplicate_transaction, self_transfer, optimistic_lock,
  integrity_error, unexpected,
}
use payment_system.Core.Exec.{Exec, pure, raise, or_raise, catching, ◌>>=◌, ◌>>◌}
use payment_system.Models.Wallet.{Uuid, Wallet}
use payment_system.Models.Transaction.{Transaction}
use payment_system.Schemas.Payment.{PaymentRequest, TransactionResponse, transaction_response}
use payment_system.Store.Database.{Database}
use payment_system.Store.Repositories.{get_by_user_id, get_by_idempotency_key}
use payment_system.Cache.Redis.{Texts, Redis}
use payment_system.Cache.Keys.{balance_key}
use payment_system.Cache.Idempotency.{check_key, store_key}
use payment_system.Services.World.{World, on_session, on_server}
use payment_system.Services.Transfer.{Order, execute_transfer}

abbrev pub max_retry_attempts : ℕ
max_retry_attempts = 3

abbrev pub order_of : PaymentRequest → Uuid → Uuid → Order
order_of request sender_wallet_id receiver_wallet_id = record {
  sender_wallet_id = sender_wallet_id;
  receiver_wallet_id = receiver_wallet_id;
  amount = request.amount;
  currency = request.currency;
  idempotency_key = request.idempotency_key;
  description = request.description;
}

module _ (db : Database) (texts : Texts) (redis : Redis) where
  open db use {Session, rollback, read_id}
  open redis use {Server, delete_all}

  abbrev Action : Type 0 → Type 0
  Action A = Exec (World Session Server) A

  -- After the commit: store the response, and delete both cached balances in a pipeline.
  unfoldable pub post_commit :
      Bool → PaymentRequest → Wallet → Wallet → TransactionResponse → Action (Unit {0})
  post_commit false request sender receiver result = pure tt
  post_commit true request sender receiver result = do
    on_server (store_key texts redis true request.idempotency_key result 201)
    sender_id ← on_session (read_id sender)
    receiver_id ← on_session (read_id receiver)
    on_server (delete_all (balance_key sender_id ∷ balance_key receiver_id ∷ []))

  -- The body of the `try`. The two ids are read again in each round.
  unfoldable pub try_transfer : Bool → PaymentRequest → Wallet → Wallet → Action TransactionResponse
  unfolding post_commit
  try_transfer client request sender receiver = do
    sender_id ← on_session (read_id sender)
    receiver_id ← on_session (read_id receiver)
    result ← on_session (execute_transfer db (order_of request sender_id receiver_id))
    post_commit client request sender receiver result
    pure result

  abbrev pub existing_or_duplicate : Option Transaction → Action TransactionResponse
  existing_or_duplicate none = raise duplicate_transaction
  existing_or_duplicate (some existing) = pure (transaction_response existing)

  -- The `except` clauses; `again` is the rest of the loop.
  unfoldable pub handle :
      PaymentRequest → Action TransactionResponse → Exception → Action TransactionResponse
  handle request again integrity_error = do
    on_session rollback
    existing ← on_session (get_by_idempotency_key db request.idempotency_key)
    existing_or_duplicate existing
  handle request again optimistic_lock = on_session rollback >> again
  handle request again e = on_session rollback >> raise e

  -- The rounds of the loop that are left. After the last conflict it raises.
  unfoldable pub attempts : Bool → PaymentRequest → Wallet → Wallet → ℕ → Action TransactionResponse
  unfolding try_transfer handle
  attempts client request sender receiver zero = raise optimistic_lock
  attempts client request sender receiver (suc left) =
      catching (try_transfer client request sender receiver)
        (handle request (attempts client request sender receiver left))

  -- The wallets of both users, then the transfer.
  unfoldable pub validate_and_send : Bool → Uuid → PaymentRequest → Action TransactionResponse
  unfolding attempts
  validate_and_send client sender_user_id request = do
    sender ← (do
      found ← on_session (get_by_user_id db sender_user_id)
      or_raise wallet_not_found found)
    receiver ← (do
      found ← on_session (get_by_user_id db request.receiver_id)
      or_raise wallet_not_found found)
    if sender.id == receiver.id
        then raise self_transfer
        else attempts client request sender receiver max_retry_attempts

  unfoldable pub existing_or_send :
      Bool → Uuid → PaymentRequest → Option Transaction → Action TransactionResponse
  unfolding validate_and_send
  existing_or_send client sender_user_id request (some existing) =
      pure (transaction_response existing)
  existing_or_send client sender_user_id request none =
      validate_and_send client sender_user_id request

  -- The ledger is asked for the key.
  unfoldable pub lookup_or_send : Bool → Uuid → PaymentRequest → Action TransactionResponse
  unfolding existing_or_send
  lookup_or_send client sender_user_id request = do
    existing ← on_session (get_by_idempotency_key db request.idempotency_key)
    existing_or_send client sender_user_id request existing

  -- `if cached: return TransactionResponse(**cached["response"])`
  unfoldable pub cached_or_send :
      Bool → Uuid → PaymentRequest → Option texts.Json → Action TransactionResponse
  unfolding lookup_or_send
  cached_or_send client sender_user_id request (some cached) =
      if texts.is_truthy cached
      then or_raise (unexpected 5) (texts.response_of cached)
      else lookup_or_send client sender_user_id request
  cached_or_send client sender_user_id request none = lookup_or_send client sender_user_id request

  unfoldable pub send_money : Bool → Uuid → PaymentRequest → Action TransactionResponse
  unfolding cached_or_send
  send_money client sender_user_id request = do
    cached ← on_server (check_key texts redis client request.idempotency_key)
    cached_or_send client sender_user_id request cached
