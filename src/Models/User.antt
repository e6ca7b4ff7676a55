-- ===== src/Models/User.antt =====
-- The user model, payment-system/app/models/user.py.
use payment_system.Base.{String, Bool, true}
use payment_system.Models.Wallet.{Uuid, Time}

pub record User : Type 0 where
  pub id : Uuid
  pub email : String
  pub password_hash : String
  pub full_name : String
  pub is_active : Bool
  pub created_at : Time
  pub updated_at : Time

-- `User(email=..., password_hash=..., full_name=...)` with the column defaults.
abbrev pub default_user : Uuid → Time → String → String → String → User
default_user id now email password_hash full_name = record {
  id = id;
  email = email;
  password_hash = password_hash;
  full_name = full_name;
  is_active = true;
  created_at = now;
  updated_at = now;
}
