-- ===== src/PasswordReset/Examples.antt =====
-- The theorems on password resets at concrete requests. The sample users share one address, so the
-- first of them, user 11, gets the token.
use trustedoss_portal.Prelude.{none, [], ◌∷◌, str_eq}
use trustedoss_portal.Model.{PasswordResetToken, new, pending, ScanStatus, Database}
use trustedoss_portal.Samples.{store}
use trustedoss_portal.PasswordReset.{Consumption, consume_reset_token}

abbrev reset : PasswordResetToken
reset = record {
  id = 141;
  user_id = 12;
  token_hash = "secret";
  expires_at = 3601;
  used_at = none;
  invalidated_at = none;
  created_at = 1;
}

abbrev db : Database
db = record (store new pending ScanStatus.failed) { password_reset_tokens = reset ∷ [] }

abbrev consumption : Consumption
consumption = record { plaintext_token = "secret"; new_hash = "new hash"; now = 100 }

abbrev saved : Database
saved = (consume_reset_token str_eq db db consumption).1
