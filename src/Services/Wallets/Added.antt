-- ===== src/Services/Wallets/Added.antt =====
-- How the top-up of payment-system/app/services/wallet_service.py may end.
use payment_system.Base.{ℕ, ◌+◌, ◌≡◌, ◌⊎◌, inl, inr, some}
use payment_system.Core.Exceptions.{
  Exception, wallet_not_found, optimistic_lock, integrity_error, unexpected,
}
use payment_system.Core.Outcome.{IsLibrary, IsUnexpected}
use payment_system.Models.Wallet.{Uuid, Wallet}
use payment_system.Models.Tables.{Tables, wallet_by_id}
use payment_system.Models.Tables.Writes.{new_row}
use payment_system.Schemas.Wallet.{WalletResponse, wallet_response}
use payment_system.Store.Session.{Newer, Follows}
use payment_system.Store.Database.{Database}
use payment_system.Store.Steps.{Write}

module _ (db : Database) where
  open db use {Others}

  -- One committed top-up between the durable tables `d` and `to`: the wallet of the user got the
  -- amount in one versioned write of the row as it then stood, and stood so in the committed tables.
  pub record ToppedUp (user_id : Uuid) (amount : ℕ) (d : Tables) (r : WalletResponse) (to : Tables)
      : Type 0 where
    pub wallet : Wallet
    pub owner : wallet.user_id ≡ user_id
    pub start : Tables
    pub begun : Others d start
    pub after : Tables
    pub write : Write db start wallet (wallet.balance + amount) after
    pub committed : Tables
    pub published : Others after committed
    pub row :
        wallet_by_id wallet.id committed.wallets
        ≡ some (new_row (wallet.balance + amount) wallet.version write.now wallet)
    pub later : Others committed to
    pub reread : Wallet
    pub reread_row : wallet_by_id wallet.id to.wallets ≡ some reread
    pub newer : Newer (new_row (wallet.balance + amount) wallet.version write.now wallet) reread
    pub response : r ≡ wallet_response reread

  -- How it may raise. Only an unexpected exception may leave the top-up durable.
  abbrev pub Declined : Tables → Tables → Exception → Type 0
  Declined d d' wallet_not_found = Others d d'
  Declined d d' optimistic_lock = Others d d'
  Declined d d' integrity_error = Others d d'
  Declined d d' (unexpected class) = Others d d' ⊎ Follows d d'
  Declined d d' _ = ⊥

  pub library-Declined :
      (d d' : Tables) (e : Exception)
      → IsLibrary e
      → Others d d' ⊎ (IsUnexpected e × Follows d d')
      → Declined d d' e
  library-Declined d d' integrity_error l (inl h) = h
  library-Declined d d' integrity_error l (inr h) = absurd h.0
  library-Declined d d' (unexpected class) l (inl h) = inl h
  library-Declined d d' (unexpected class) l (inr h) = inr h.1
  library-Declined d d' _ l h = absurd l
