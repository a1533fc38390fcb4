-- ===== src/Tests/Accounts.antt =====
-- Referrals, credits, logins and the admins' control on the sample market: app/services/referral_service.py,
-- app/api/internal.py, app/api/auth.py, app/api/admin.py and app/api/businesses.py.
use ethiogram.Base.{
  ℕ, String, ◌-◌, ◌≤◌, ◌≡◌, ◌≢◌, ◌⊎◌, refl, ap, true, false, ◌&&◌, none, some, [], ◌∷◌, arith,
  find_first, count_if, leb, ◌==◌, eq_string, if◌then◌else◌, eq_nat,
}
use ethiogram.Base.Int.{pos, ◌+ℤ◌, ◌≤ℤ◌}
use ethiogram.Base.Texts.{Text, decimal_text}
use ethiogram.Models.{
  BotStatus, World, User, UserSession, Settings, default_settings, Error, empty_redis, UserRole,
}
use ethiogram.Request.{ok, err}
use ethiogram.Metering.{db_balance, in_grace, find_wallet, reactivate_grace_bots}
use ethiogram.Metering.Cache.{IsCoherent}
use ethiogram.Metering.Ledger.{IsAudited}
use ethiogram.Transfers.{Characters}
use ethiogram.Credits.{capture, redeem, pending, ChapaCreditPayload, internal_chapa_credit}
use ethiogram.Credits.Pending.{ReadsNumbers}
use ethiogram.Credits.Bonus.{redeem-capture, redeem_once}
use ethiogram.Credits.Odaflux.{Refused, internal_chapa_credit_lem}
use ethiogram.Auth.{
  Security, Claims, Decoded, RegisterRequest, TokenResponse, register, login, get_current_user,
  refresh_token, has_email, has_token,
}
use ethiogram.Auth.Registration.{register-login}
use ethiogram.Auth.Rotation.{refresh_token_once}
use ethiogram.Admin.{suspend_user, suspend_bot, suspended_bot}
use ethiogram.Admin.Lockout.{suspend_user-locks_out}
use ethiogram.Admin.Silence.{suspend_bot-telegram_webhook}
use ethiogram.Messages.{telegram_webhook, is_bot}
use ethiogram.Bots.{update_bot_status}
use ethiogram.Bots.Control.{suspend_bot-update_bot_status}
use ethiogram.Storefront.{
  Generated, charge_generation, take_cost, generations, generations_per_hour,
}
use ethiogram.Storefront.Limits.{successes, successes_le}
use ethiogram.Storefront.Unmetered.{charge_generation_unrecorded}
use ethiogram.Tests.Messaging.{quiet, question}
use ethiogram.Tests.Samples.{market_db, market, buyer, creator, shop_bot, shop, shop_wallet}

-- ASCII digits, and the blank as white space.
abbrev digits_only : Characters
digits_only = record {
  is_space = λ c. if leb c 32 then true else false;
  is_digit = λ c. leb 48 c && leb c 57;
  decimal = λ c. if leb 48 c then some (c - 48) else none;
  lower = λ s. s;
  sql_lower = λ s. s;
}

digits_only-ReadsNumbers : ReadsNumbers digits_only
digits_only-ReadsNumbers = record {
  solid = λ n. ground arith;
  digits = λ n. ground arith;
  values = λ n. ground arith;
}

-- The friend 500 follows the link of the shop's owner 77, and connects a bot for the studio.
redeem-capture_example :
    let (captured, parked) = capture digits_only (decimal_text 500) (decimal_text 77) market in
    let (paid, w₂) = redeem digits_only default_settings 20 (some 500) parked in
    (captured ≡ true)
    × (pending (decimal_text 500) parked ≡ pending (decimal_text 500) parked
        → (paid ≡ true)
          × (db_balance 20 w₂.db ≡ db_balance 20 parked.db +ℤ pos 200)
          × (db_balance 10 w₂.db ≡ db_balance 10 parked.db +ℤ pos 200)
          × (pending (decimal_text 500) w₂ ≡ none))
unfolding capture
redeem-capture_example =
    redeem-capture digits_only default_settings 20 500 77 market
      (capture digits_only (decimal_text 500) (decimal_text 77) market).1 {user = buyer}
      {theirs = shop} digits_only-ReadsNumbers (λ e. omega (arith, e)) (λ e. omega (arith, e))
      (omega arith) refl refl refl (λ e. omega (arith, e))

redeem_once_example :
    let (paid, w') = redeem digits_only default_settings 20 (some 500) market in
    ((paid ≡ false) × (w' ≡ market))
    ⊎ ((paid ≡ true) × (redeem digits_only default_settings 20 (some 500) w' ≡ (false, w')))
redeem_once_example = redeem_once digits_only default_settings 20 20 500 market

abbrev keyed : Settings
keyed = record default_settings { chapa_internal_key = "key"; admin_telegram_ids = 77 ∷ [] }

abbrev recharge : ChapaCreditPayload
recharge = record { user_id = "1"; business_id = 10; amount = pos 300; tx_ref = "tx" }

internal_chapa_credit_lem_example :
    let (r, w') = internal_chapa_credit keyed "key" recharge market in
    ((code : ℕ) × (r ≡ err (Error.http_exception code))
      × (w' ≡ market)
      × Refused keyed "key" recharge code)
    ⊎ ((keyed.chapa_internal_key ≢ "")
        × ("key" ≡ keyed.chapa_internal_key)
        × (pos 1 ≤ℤ pos 300)
        × (r ≡ ok (db_balance 10 w'.db))
        × (db_balance 10 w'.db ≡ db_balance 10 market_db +ℤ pos 300)
        × (count_if (in_grace 10) w'.db.bots ≡ 0)
        × ((internal_chapa_credit keyed "key" recharge w').0 ≡ ok (db_balance 10 w'.db +ℤ pos 300)))
internal_chapa_credit_lem_example = internal_chapa_credit_lem keyed "key" recharge market

-- "password"
abbrev password : Text
password = 112 ∷ 97 ∷ 115 ∷ 115 ∷ 119 ∷ 111 ∷ 114 ∷ 100 ∷ []

abbrev sign_up : RegisterRequest
sign_up = record { email = 109 ∷ []; password = password; referral_code = none }

-- The libraries, for two tokens of the user 1000.
abbrev libraries : Security
libraries = record {
  encode = λ claims. claims.kind;
  decode = λ token now. Decoded.payload (record {
    sub = some 1000;
    role = some UserRole.owner;
    iat = 100;
    exp = 3700;
    kind = token;
    jti = none;
  });
  digest = λ password. "digest";
  hashpw = λ digest salt. digest;
  checkpw = λ digest hashed. some (digest == hashed);
  token_hex = λ seed. seed;
  referral_hex = λ seed. 65 ∷ [];
  upper = λ s. s;
}

register-login_example :
    let (r, w₁) = register libraries default_settings sign_up 50 1 market in
    let (r', w₂) = login libraries default_settings (109 ∷ []) password 100 2 w₁ in
    (t : TokenResponse) × (t' : TokenResponse) × (user : User) × (r ≡ ok t)
    × (r' ≡ ok t')
    × (t.user_id ≡ user.id)
    × (t'.user_id ≡ user.id)
    × (user.email ≡ some (109 ∷ []))
    × (get_current_user libraries (some t'.access_token) 3600 w₂ ≡ (ok user, w₂))
register-login_example =
    register-login libraries default_settings sign_up 50 1 100 2 3600 market (λ now g h. refl)
      (λ d salt. ap some ((eq_string.equal_iff d d).1 refl)) (omega arith) refl (omega arith)
      (omega arith)

abbrev session : UserSession
session = record {
  user_id = 1;
  refresh_token = "old";
  expires_at = 900;
  revoked_at = none;
  platform = "web";
}

abbrev signed_in : World
signed_in = record { db = record market_db { sessions = session ∷ [] }; redis = empty_redis }

abbrev old_token : Security
old_token = record libraries {
  decode = λ token now.
      Decoded.payload
        (record { sub = some 1; role = none; iat = 0; exp = 900; kind = "refresh"; jti = none });
}

refresh_token_once_example :
    let (r, w') = refresh_token old_token default_settings "old" 300 3 signed_in in
    ((e : Error) × (r ≡ err e) × (w' ≡ signed_in))
    ⊎ ((t : TokenResponse) × (r ≡ ok t)
        × ((now' seed' : ℕ)
            → (e : Error) × (refresh_token old_token default_settings "old" now' seed' w'
                ≡ (err e, w'))))
refresh_token_once_example =
    refresh_token_once old_token default_settings "old" 300 3 signed_in (λ id. refl)

suspend_user-locks_out_example :
    let (r, w') = suspend_user keyed buyer 2 "abuse" 60 market in
    (r ≡ ok tt)
    × ((token : String) (claims : Claims) (now : ℕ)
        → libraries.decode token now ≡ Decoded.payload claims
        → claims.sub ≡ some 2
        → (e : Error) × (get_current_user libraries (some token) now w' ≡ (err e, w')))
    × ((token : String) (claims : Claims) (now seed : ℕ) (s : UserSession)
        → libraries.decode token now ≡ Decoded.payload claims
        → claims.sub ≡ some 2
        → find_first (has_token token) [] ≡ some s
        → (e : Error) × (refresh_token libraries keyed token now seed w' ≡ (err e, w')))
    × ((email password : Text) (now seed : ℕ)
        → find_first (has_email email) market_db.users ≡ some creator
        → login libraries keyed email password now seed w' ≡ (err Error.auth_error, w'))
suspend_user-locks_out_example =
    suspend_user-locks_out libraries keyed buyer creator "abuse" 60 market refl refl

suspend_bot-telegram_webhook_example :
    let (r, w₁) = suspend_bot buyer 6 "abuse" 60 market in
    let (_, paid) = reactivate_grace_bots 10 w₁.db in
    (r ≡ ok tt)
    × (telegram_webhook quiet question 70 w₁ ≡ (ok tt, w₁))
    × (telegram_webhook quiet question 70 (record w₁ { db = paid })
        ≡ (ok tt, record w₁ { db = paid }))
suspend_bot-telegram_webhook_example =
    suspend_bot-telegram_webhook quiet buyer shop_bot "abuse" 60 70 question market refl refl refl

suspend_bot-update_bot_status_example :
    let (suspended, w₁) = suspend_bot creator 6 "abuse" 60 market in
    let (resumed, w₂) = update_bot_status 6 1 "active" w₁ in
    (suspended ≡ ok tt)
    × (resumed ≡ ok tt)
    × (find_first (is_bot 6) w₁.db.bots ≡ some (suspended_bot "abuse" 60 shop_bot))
    × (find_first (is_bot 6) w₂.db.bots
        ≡ some (record (suspended_bot "abuse" 60 shop_bot) { status = BotStatus.active }))
suspend_bot-update_bot_status_example =
    suspend_bot-update_bot_status creator 1 "abuse" 60 market {bot = shop_bot} refl refl

abbrev by_model : World → Generated
by_model w = record { by_ai = true; model = some "mini" }

successes_le_example :
    successes by_model 10 1 (market_db ∷ market_db ∷ []) market
    ≤ generations_per_hour - generations 10 market
successes_le_example = successes_le by_model 10 1 (market_db ∷ market_db ∷ []) market

abbrev cached : World
cached = record { db = market_db; redis = record empty_redis { balances = (10, pos 1000) ∷ [] } }

cached-IsCoherent : IsCoherent cached
cached-IsCoherent b v e = ground arith

charge_generation_unrecorded_example :
    let (charged, w') = charge_generation 10 (some "mini") cached in
    (charged ≡ 5)
    × (find_wallet 10 w'.db ≡ some (take_cost shop_wallet))
    × ¬ IsAudited (pos 1000) 10 w'.db (take_cost shop_wallet)
    × ¬ IsCoherent w'
unfolding ◌+ℤ◌
charge_generation_unrecorded_example =
    charge_generation_unrecorded 10 (some "mini") cached {t = shop_wallet} (pos 1000) (pos 1000)
      (record { found = refl; chain = tt; latest = refl; amounts = omega arith }) cached-IsCoherent
      refl (omega arith)
