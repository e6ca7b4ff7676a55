-- ===== src/Services/Users/Registration.antt =====
-- What `register` of payment-system/app/services/user_service.py leaves in the tables.
use payment_system.Base.{
  ◌≡◌, refl, sym, subst, ap, ◌∙◌, String, ◌⊎◌, inl, inr, Option, none, some, ◌∷◌, find, ◌==◌,
}
use payment_system.Core.Exceptions.{Exception, user_already_exists, integrity_error, unexpected}
use payment_system.Core.Outcome.{
  IsLibrary, IsUnexpected, Unexpected-IsLibrary, Outcome, Outcome-bind,
}
use payment_system.Models.Wallet.{Uuid, Time, Wallet}
use payment_system.Models.User.{User, default_user}
use payment_system.Models.Tables.{Tables}
use payment_system.Schemas.User.{UserCreate, UserResponse, user_response}
use payment_system.Store.Session.{View, Follows, Read, Committed}
use payment_system.Store.Database.{Database}
use payment_system.Store.Follows.{Follows-trans}
use payment_system.Store.Accounts.{
  has_email, UserAdded, WalletAdded, Accounts, Follows-users, Follows-wallet,
}
use payment_system.Services.Users.{
  add_user, create_user, create_wallet, unless_taken, register, get_by_email,
}

module _ (db : Database) (accounts : Accounts db) (hash_password : String → String)
    (data' : UserCreate) (d : Tables) where
  open db use {Session, view, Others, Shows, others_refl, others_trans, others_Follows}

  -- A committed registration between the durable tables `d` and `to`: one user under an email that
  -- was free, and one wallet of that user with a zero balance.
  pub record Registered (r : UserResponse) (to : Tables) : Type 0 where
    pub start : Tables
    pub begun : Others d start
    pub id : Uuid
    pub now : Time
    pub unique : find (has_email data'.email) start.users ≡ none
    pub before_wallet : Tables
    pub arrived :
        Others
          (record start {
            users =
                default_user id now data'.email (hash_password data'.password) data'.full_name
                ∷ start.users;
          })
          before_wallet
    pub wallet : Wallet
    pub empty : wallet.balance ≡ 0
    pub owner : wallet.user_id ≡ id
    pub only : find (λ w. w.user_id == id) before_wallet.wallets ≡ none
    pub committed : Tables
    pub published :
        Others (record before_wallet { wallets = wallet ∷ before_wallet.wallets }) committed
    pub later : Others committed to
    pub response :
        r
        ≡ user_response
            (default_user id now data'.email (hash_password data'.password) data'.full_name)

  -- How it may raise: only an unexpected exception may leave the registration durable.
  abbrev pub Rejected : Tables → Exception → Type 0
  Rejected d' (user_already_exists email) = (email ≡ data'.email) × Others d d'
  Rejected d' integrity_error = Others d d'
  Rejected d' (unexpected class) = Others d d' ⊎ Follows d d'
  Rejected d' _ = ⊥

  library-Rejected :
      (d' : Tables) (e : Exception)
      → IsLibrary e
      → Others d d' ⊎ (IsUnexpected e × Follows d d')
      → Rejected d' e
  library-Rejected d' integrity_error l (inl h) = h
  library-Rejected d' integrity_error l (inr h) = absurd h.0
  library-Rejected d' (unexpected class) l (inl h) = inl h
  library-Rejected d' (unexpected class) l (inr h) = inr h.1
  library-Rejected d' _ l h = absurd l

  abbrev Good : UserResponse → Session → Type 0
  Good r s' = Registered r (view s').durable

  abbrev Bad : Exception → Session → Type 0
  Bad e s' = Rejected (view s').durable e

  module _ {v v₁ v₂ : View} {u : User} {w : Wallet} (begun : Others d v.seen)
      (a : UserAdded db data'.email (hash_password data'.password) data'.full_name v u v₁)
      (b : WalletAdded db u.id v₁ w v₂) where
    added_Follows : Follows d v₂.seen
    added_Follows =
        Follows-trans _ _ _ (others_Follows _ _ (others_trans _ _ _ begun a.ran.arrived)) (
          Follows-trans _ _ _ (subst (Follows a.before) (sym a.written) (Follows-users u a.before))
            (Follows-trans _ _ _ (others_Follows _ _ b.ran.arrived)
              (subst (Follows b.before) (sym b.written) (Follows-wallet w b.before b.fresh))))

    registered :
        {v₃ : View} {r : User} {to : Tables}
        → Committed Others Shows v₂ v₃
        → r ≡ u
        → Others v₃.durable to
        → Registered (user_response r) to
    registered {v₃} k same later =
        let id_same : u.id ≡ a.id = ap (λ (x : User). x.id) a.row in
        record {
          start = a.before;
          begun = others_trans _ _ _ begun a.ran.arrived;
          id = a.id;
          now = a.now;
          unique = a.unique;
          before_wallet = b.before;
          arrived =
              subst (λ x. Others (record a.before { users = x ∷ a.before.users }) b.before) a.row
                (subst (λ t. Others t b.before) a.written b.ran.arrived);
          wallet = w;
          empty = ap (λ (x : Wallet). x.balance) b.row;
          owner = ap (λ (x : Wallet). x.user_id) b.row ∙ id_same;
          only = subst (λ i. find (λ x. x.user_id == i) b.before.wallets ≡ none) id_same b.unique;
          committed = v₃.durable;
          published =
              subst (λ t. Others t v₃.durable) b.written
                (subst (Others v₂.seen) (sym k.durable) k.arrived);
          later = later;
          response = ap user_response (same ∙ a.row);
        }

  add_user_law :
      (s : Session)
      → Others d (view s).seen
      → Others d (view s).durable
      → Outcome Good Bad (add_user db accounts hash_password data' s)
  unfolding add_user create_user create_wallet
  add_user_law s begun durable =
      Outcome-bind _ Good _ Bad (accounts.insert_user _ _ _ s) _ (accounts.insert_user_law _ _ _ s)
        (λ u s₁ a.
          let durable₁ = others_trans _ _ _ durable a.ran.others in
          Outcome-bind (λ w s₂. WalletAdded db u.id (view s₁) w (view s₂)) Good _ Bad
            (accounts.insert_wallet u.id s₁) _ (accounts.insert_wallet_law u.id s₁)
            (λ w s₂ b.
              let durable₂ = others_trans _ _ _ durable₁ b.ran.others in
              Outcome-bind (λ _ s₃. Committed Others Shows (view s₂) (view s₃)) Good _ Bad
                (db.commit s₂) _ (db.commit_law s₂)
                (λ _ s₃ k.
                  Outcome-bind (λ r s₄. (r ≡ u) × Others (view s₃).durable (view s₄).durable) Good
                    (λ e s₄. IsUnexpected e × Others (view s₃).durable (view s₄).durable) Bad
                    (accounts.refresh_user u s₃) _ (accounts.refresh_user_law u s₃)
                    (λ r s₄ f. registered begun a b k f.0 f.1)
                    (λ e s₄ f. library-Rejected (view s₄).durable e (Unexpected-IsLibrary e f.0) (
                      inr (
                        f.0,
                        Follows-trans _ _ _ (added_Follows begun a b) (
                            others_Follows _ _ (
                              others_trans _ _ _
                                (subst (Others (view s₂).seen) (sym k.durable) k.arrived) f.1)),
                      ))))
                (λ e s₃ h.
                  library-Rejected (view s₃).durable e h.0
                    (attempted (view s₂) (view s₃).durable durable₂ (added_Follows begun a b) h.1)))
            (λ e s₂ h.
              library-Rejected (view s₂).durable e h.0 (inl (others_trans _ _ _ durable₁ h.1))))
        (λ e s₁ h. library-Rejected (view s₁).durable e h.0 (inl (others_trans _ _ _ durable h.1)))
    where
      attempted :
          {U : Type 0} (v : View) (to : Tables)
          → Others d v.durable
          → Follows d v.seen
          → Others v.durable to ⊎ (U × Others v.seen to)
          → Others d to ⊎ (U × Follows d to)
      attempted v to durable follows (inl same) = inl (others_trans _ _ _ durable same)
      attempted v to durable follows (inr (u, reached)) =
          inr (u, Follows-trans _ _ _ follows (others_Follows _ _ reached))

  register_law :
      (s : Session)
      → (view s).seen ≡ (view s).durable
      → Others d (view s).durable
      → Outcome Good Bad (register db accounts hash_password data' s)
  unfolding register get_by_email unless_taken
  register_law s clean durable =
      Outcome-bind
        (λ r s₁. Read Others Shows (λ t. find (has_email data'.email) t.users) (view s) r (view s₁))
        Good _ Bad (accounts.select_user (has_email data'.email) s) _
        (accounts.select_user_law (has_email data'.email) s)
        (λ r s₁ l.
          let durable₁ = others_trans _ _ _ durable l.ran.others in
          taken r s₁ (subst (Others d) (sym (l.clean clean)) durable₁) durable₁)
        (λ e s₁ h. library-Rejected (view s₁).durable e h.0 (inl (others_trans _ _ _ durable h.1)))
    where
      taken :
          (r : Option User) (s₁ : Session)
          → Others d (view s₁).seen
          → Others d (view s₁).durable
          → Outcome Good Bad (unless_taken db accounts hash_password data' r s₁)
      taken none s₁ begun durable₁ = add_user_law s₁ begun durable₁
      taken (some u) s₁ begun durable₁ = (refl, durable₁)

-- Whatever other sessions commit meanwhile, a registration on a session with nothing pending that
-- returns has added, in one commit, a user under an email that no user had and one wallet of that
-- user with a zero balance; one that raises has left neither durable, or its exception is an
-- unexpected one.
pub register_atomic :
    (db : Database) (accounts : Accounts db) (hash_password : String → String) (data' : UserCreate)
    (s : db.Session)
    → (db.view s).seen ≡ (db.view s).durable
    → Outcome
        (λ r s'.
          Registered db accounts hash_password data' (db.view s).durable r (db.view s').durable)
        (λ e s'.
          Rejected db accounts hash_password data' (db.view s).durable (db.view s').durable e)
        (register db accounts hash_password data' s)
register_atomic db accounts hash_password data' s clean =
    register_law db accounts hash_password data' _ s clean (db.others_refl _)
