-- ===== src/Cache/Keys.antt =====
-- The cache keys and their times to live: `CacheKeys` and `CacheTTL` of
-- payment-system/app/services/cache_manager.py, over Python's text of a UUID.
use Prim.Native.String.{◌++◌}
use payment_system.Base.{ℕ, zero, suc, ◌≡◌, refl, ◌/◌, ◌%◌, ◌^◌, String, ◌==◌, if◌then◌else◌}
use payment_system.Models.Wallet.{Uuid}

hex_digit : ℕ → String
hex_digit d =
    if d == 0
    then "0"
    else if d == 1
    then "1"
    else if d == 2
    then "2"
    else if d == 3
    then "3"
    else if d == 4
    then "4"
    else if d == 5
    then "5"
    else if d == 6
    then "6"
    else if d == 7
    then "7"
    else if d == 8
    then "8"
    else if d == 9
    then "9"
    else if d == 10
    then "a"
    else if d == 11
    then "b"
    else if d == 12
    then "c"
    else if d == 13
    then "d"
    else if d == 14
    then "e"
    else "f"

-- The last `width` hexadecimal digits.
hex : ℕ → ℕ → String
hex zero n = ""
hex (suc width) n = hex width (n / 16) ++ hex_digit (n % 16)

-- `str(uuid)`: groups of 8, 4, 4, 4 and 12 digits.
unfoldable pub uuid_text : Uuid → String
unfolding hex hex_digit
uuid_text u =
    hex 8 (u / 16 ^ 24)
    ++ "-"
    ++ hex 4 (u / 16 ^ 20)
    ++ "-"
    ++ hex 4 (u / 16 ^ 16)
    ++ "-"
    ++ hex 4 (u / 16 ^ 12)
    ++ "-"
    ++ hex 12 u

abbrev pub balance_key : Uuid → String
balance_key wallet_id = "wallet:balance:" ++ uuid_text wallet_id

abbrev pub wallet_info_key : Uuid → String
wallet_info_key wallet_id = "wallet:info:" ++ uuid_text wallet_id

abbrev pub idempotency_cache_key : String → String
idempotency_cache_key key = "idempotency:" ++ key

abbrev pub rate_limit_key : String → String → String
rate_limit_key identifier endpoint = "rate_limit:" ++ identifier ++ ":" ++ endpoint

abbrev pub balance_ttl : ℕ
balance_ttl = 300

abbrev pub wallet_info_ttl : ℕ
wallet_info_ttl = 600

abbrev pub idempotency_ttl : ℕ
idempotency_ttl = 86400

abbrev pub rate_limit_ttl : ℕ
rate_limit_ttl = 60

uuid_text_run :
    uuid_text 0x550e8400e29b41d4a716446655440000 ≡ "550e8400-e29b-41d4-a716-446655440000"
unfolding uuid_text
uuid_text_run = refl
