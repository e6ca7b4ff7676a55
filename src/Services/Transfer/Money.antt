-- ===== src/Services/Transfer/Money.antt =====
-- What a transfer of payment-system/app/services/payment_service.py does to the money in all wallets,
-- and to what other sessions may rely on.
use payment_system.Base.{◌≡◌, ◌≢◌, ◌⊎◌, inl, inr, arith}
use payment_system.Core.Exceptions.{
  Exception, wallet_not_found, insufficient_balance, optimistic_lock, integrity_error, unexpected,
}
use payment_system.Core.Outcome.{IsUnexpected, Outcome, Outcome-weaken}
use payment_system.Models.Tables.{Tables, total}
use payment_system.Schemas.Payment.{TransactionResponse}
use payment_system.Store.Session.{Follows}
use payment_system.Store.Database.{Database}
use payment_system.Store.Steps.{Write-Follows}
use payment_system.Store.Totals.{total-Write}
use payment_system.Store.Follows.{Follows-trans, Follows-entry}
use payment_system.Services.Transfer.{Order, execute_transfer}
use payment_system.Services.Transfer.Trace.{Posted, Refused, debited, credited}
use payment_system.Services.Transfer.Trace.Locks.{execute_transfer_posts_or_leaves}

module _ (db : Database) (o : Order) where
  open db use {Session, view, Others, others_Follows}

  pub Posted-Follows :
      (from to : Tables) (r : TransactionResponse) → Posted db o from r to → Follows from to
  Posted-Follows from to r p = Follows-trans _ _ _ (others_Follows _ _ p.begun) (
      Follows-trans _ _ _ (Write-Follows db p.sender (debited db o p.sender) p.debit) (
        Follows-trans _ _ _ (Write-Follows db p.receiver (credited db o p.receiver) p.credit) (
          Follows-trans _ _ _ (others_Follows _ _ p.arrived) (
            Follows-trans _ _ _ (Follows-entry _ p.before_entry p.unique) (
              Follows-trans _ _ _ (others_Follows _ _ p.published) (others_Follows _ _ p.later))))))

  Refused-Follows :
      (from d d' : Tables) (e : Exception)
      → Refused db o from d d' e
      → Others d d' ⊎ Follows from d'
  Refused-Follows from d d' wallet_not_found h = inl h
  Refused-Follows from d d' (insufficient_balance available required) h = inl h.2
  Refused-Follows from d d' optimistic_lock h = inl h
  Refused-Follows from d d' integrity_error h = inl h
  Refused-Follows from d d' (unexpected class) h = h
  Refused-Follows from d d' _ h = absurd h

  Refused-Others :
      (from d d' : Tables) (e : Exception) → Refused db o from d d' e → IsUnexpected e ⊎ Others d d'
  Refused-Others from d d' wallet_not_found h = inr h
  Refused-Others from d d' (insufficient_balance available required) h = inr h.2
  Refused-Others from d d' optimistic_lock h = inr h
  Refused-Others from d d' integrity_error h = inr h
  Refused-Others from d d' (unexpected class) h = inl tt
  Refused-Others from d d' _ h = absurd h

  -- A transfer does to the tables only what the program assumes of other sessions: whether it
  -- returns or raises, in the durable tables a wallet that changed has a higher version and every
  -- ledger entry is still there, as seen from the tables that the session began with or, if
  -- nothing of it became durable, by commits of others alone.
  pub execute_transfer-Follows :
      (s : Session)
      → o.sender_wallet_id ≢ o.receiver_wallet_id
      → Outcome
          (λ _ s'. Follows (view s).seen (view s').durable)
          (λ _ s'.
            Others (view s).durable (view s').durable ⊎ Follows (view s).seen (view s').durable)
          (execute_transfer db o s)
  execute_transfer-Follows s distinct =
      Outcome-weaken _ _ _ _ (execute_transfer db o s)
        (execute_transfer_posts_or_leaves db o s distinct) (λ r s' p. Posted-Follows _ _ r p)
        (λ e s' h. Refused-Follows _ _ _ e h)

  module _ (conserve : (t u : Tables) → Others t u → total u.wallets ≡ total t.wallets) where
    pub total-Posted :
        (from to : Tables) (r : TransactionResponse)
        → Posted db o from r to
        → total to.wallets ≡ total from.wallets
    total-Posted from to r p = omega (
      arith,
      conserve _ _ p.begun,
      total-Write db conserve p.sender (debited db o p.sender) p.debit,
      total-Write db conserve p.receiver (credited db o p.receiver) p.credit,
      conserve _ _ p.arrived,
      conserve _ _ p.published,
      conserve _ _ p.later,
      p.covered,
    )

    -- If the commits of other sessions conserve the money in all wallets, so does a transfer that
    -- returns, and one that raises any exception but an unexpected one.
    pub execute_transfer_conserves_total :
        (s : Session)
        → o.sender_wallet_id ≢ o.receiver_wallet_id
        → Outcome
            (λ _ s'. total (view s').durable.wallets ≡ total (view s).seen.wallets)
            (λ e s'.
              IsUnexpected e ⊎ (total (view s').durable.wallets ≡ total (view s).durable.wallets))
            (execute_transfer db o s)
    execute_transfer_conserves_total s distinct =
        Outcome-weaken _ _ _ _ (execute_transfer db o s)
          (execute_transfer_posts_or_leaves db o s distinct) (λ r s' p. total-Posted _ _ r p)
          (λ e s' h. elim (Refused-Others _ _ _ e h) [
            | inl failure ↦ inl failure
            | inr others ↦ inr (conserve _ _ others)
          ])
