-- ===== src/Tests/Signup.antt =====
-- The user operations of the quiet database, and a registration over it.
use payment_system.Base.{
  Bool, str_eq, suc, ◌≡◌, refl, String, Option, none, some, ◌∷◌, find, ◌==◌, length,
}
use payment_system.Core.Exceptions.{integrity_error}
use payment_system.Core.Exec.{Result, Exec, ok, err}
use payment_system.Core.Outcome.{IsLibrary, Outcome}
use payment_system.Models.Wallet.{Uuid, Wallet, default_wallet}
use payment_system.Models.User.{User, default_user}
use payment_system.Models.Tables.{wallet_by_id}
use payment_system.Schemas.User.{UserCreate, UserLogin, TokenResponse, UserResponse, user_response}
use payment_system.Store.Accounts.{has_email, UserAdded, WalletAdded, Accounts}
use payment_system.Services.Users.{register, login, get_by_email}
use payment_system.Services.Users.Login.{Admitted, Refused, login_admits}
use payment_system.Services.Users.Registration.{Registered, Rejected, register_atomic}
use payment_system.Tests.Quiet.{Local, quiet, local_view, Same, unchanged}
use payment_system.Tests.Transfers.{start, start_tables}

abbrev add_local_user : String → String → String → Option User → Exec Local User
add_local_user email hash full_name (some u) s' = (err integrity_error, s')
add_local_user email hash full_name none s' =
    let u = default_user (length s'.seen.users) 0 email hash full_name in
    (
      ok u,
      record s' { seen = record s'.seen { users = u ∷ s'.seen.users }; seen_keyed = s'.seen_keyed },
    )

add_local_user_law :
    (email hash full_name : String) (s : Local) (r : Option User)
    → find (has_email email) s.seen.users ≡ r
    → Outcome
        (λ u s'. UserAdded quiet email hash full_name (local_view s) u (local_view s'))
        (λ e s'. IsLibrary e × Same s.durable s'.durable)
        (add_local_user email hash full_name r s)
add_local_user_law email hash full_name s (some u) e = (tt, refl)
add_local_user_law email hash full_name s none e = record {
  before = s.seen;
  id = length s.seen.users;
  now = 0;
  ran = record {
    arrived = refl;
    kept = λ id h. refl;
    keyed = s.seen_keyed;
    others = refl;
    still = λ id h. h;
  };
  row = refl;
  unique = e;
  written = refl;
}

abbrev new_wallet : Uuid → Local → Wallet
new_wallet user_id s = default_wallet (suc (suc (suc (length s.seen.wallets)))) 0 user_id

abbrev add_local_wallet :
    (user_id : Uuid) (s : Local) (r q : Option Wallet)
    → wallet_by_id (new_wallet user_id s).id s.seen.wallets ≡ r
    → Result Wallet × Local
add_local_wallet user_id s (some w) q e = (err integrity_error, s)
add_local_wallet user_id s none (some w) e = (err integrity_error, s)
add_local_wallet user_id s none none e = (
  ok (new_wallet user_id s),
  record s {
    seen = record s.seen { wallets = new_wallet user_id s ∷ s.seen.wallets };
    seen_keyed = (e, s.seen_keyed);
  },
)

add_local_wallet_law :
    (user_id : Uuid) (s : Local) (r q : Option Wallet)
    (e : wallet_by_id (new_wallet user_id s).id s.seen.wallets ≡ r)
    → find (λ w. w.user_id == user_id) s.seen.wallets ≡ q
    → Outcome
        (λ w s'. WalletAdded quiet user_id (local_view s) w (local_view s'))
        (λ e s'. IsLibrary e × Same s.durable s'.durable)
        (add_local_wallet user_id s r q e)
add_local_wallet_law user_id s (some w) q e f = (tt, refl)
add_local_wallet_law user_id s none (some w) e f = (tt, refl)
add_local_wallet_law user_id s none none e f = record {
  before = s.seen;
  id = (new_wallet user_id s).id;
  now = 0;
  ran = record {
    arrived = refl;
    kept = λ id h. refl;
    keyed = s.seen_keyed;
    others = refl;
    still = λ id h. h;
  };
  row = refl;
  fresh = e;
  unique = f;
  written = refl;
}

abbrev quiet_accounts : Accounts quiet
quiet_accounts = record {
  select_user = λ p s. (ok (find p s.seen.users), s);
  insert_user = λ email hash full_name s.
      add_local_user email hash full_name (find (has_email email) s.seen.users) s;
  insert_wallet = λ user_id s.
      add_local_wallet user_id s (wallet_by_id (new_wallet user_id s).id s.seen.wallets)
        (find (λ w. w.user_id == user_id) s.seen.wallets) refl;
  refresh_user = λ u s. (ok u, s);
  select_user_law =
      λ p s. record { ran = unchanged s s.held (λ id h. h); clean = λ e. e; result = refl };
  insert_user_law = λ email hash full_name s. add_local_user_law email hash full_name s _ refl;
  insert_wallet_law = λ user_id s. add_local_wallet_law user_id s _ _ refl refl;
  refresh_user_law = λ u s. (refl, refl);
}

abbrev carol : UserCreate
carol = record { email = "carol@example.com"; password = "correct horse"; full_name = "Carol" }

abbrev plain : String → String
plain password = password

carol_registers :
    (register quiet quiet_accounts plain carol start).0
    ≡ ok (user_response (default_user 0 0 "carol@example.com" "correct horse" "Carol"))
unfolding register get_by_email
carol_registers = refl

register_atomic_example :
    Outcome {S = Local} {A = UserResponse}
      (λ r s'. Registered quiet quiet_accounts plain carol start_tables r s'.durable)
      (λ e s'. Rejected quiet quiet_accounts plain carol start_tables s'.durable e)
      (register quiet quiet_accounts plain carol start)
register_atomic_example = register_atomic quiet quiet_accounts plain carol start refl

abbrev carol_login : UserLogin
carol_login = record { email = "carol@example.com"; password = "correct horse" }

abbrev matches : String → String → Bool
matches password hash = str_eq password hash

abbrev token_of : Uuid → String
token_of id = "token"

login_admits_example :
    Outcome {S = Local} {A = TokenResponse}
      (Admitted quiet quiet_accounts matches token_of carol_login start_tables)
      (Refused quiet quiet_accounts matches token_of carol_login start_tables)
      (login quiet quiet_accounts matches token_of carol_login start)
login_admits_example = login_admits quiet quiet_accounts matches token_of carol_login start
