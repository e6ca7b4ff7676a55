-- ===== src/Schemas/User.antt =====
-- The user schemas, payment-system/app/schemas/user.py.
use Prim.Native.String.{count}
use payment_system.Base.{String, Bool, ◌&&◌, leb}
use payment_system.Models.Wallet.{Uuid, Time}
use payment_system.Models.User.{User}

pub record UserCreate : Type 0 where
  pub email : String
  pub password : String
  pub full_name : String

-- The `Field` constraints; `is_email` is pydantic's `EmailStr`.
unfoldable pub accepts_user : (String → Bool) → UserCreate → Bool
accepts_user is_email data' =
    is_email data'.email
    && (leb 8 (count data'.password) && leb (count data'.password) 128)
    && (leb 1 (count data'.full_name) && leb (count data'.full_name) 255)

pub record UserLogin : Type 0 where
  pub email : String
  pub password : String

pub record UserResponse : Type 0 where
  pub id : Uuid
  pub email : String
  pub full_name : String
  pub is_active : Bool
  pub created_at : Time

-- `UserResponse.model_validate(user)`, by attributes.
abbrev pub user_response : User → UserResponse
user_response u = record {
  id = u.id;
  email = u.email;
  full_name = u.full_name;
  is_active = u.is_active;
  created_at = u.created_at;
}

pub record TokenResponse : Type 0 where
  pub access_token : String
  pub token_type : String

abbrev pub token_response : String → TokenResponse
token_response access_token = record { access_token = access_token; token_type = "bearer" }
