-- ===== src/Sessions/Examples.antt =====
-- The theorems on refresh tokens at concrete requests.
use trustedoss_portal.Prelude.{
  suc, true, false, none, some, List, [], ◌∷◌, Uuid, ◌==◌, any, ok, err, find, length, is_some,
  is_ok, not, ◌||◌, set_row, ◌≡◌, refl,
}
use trustedoss_portal.Model.{Role, RefreshToken, new, pending, ScanStatus, Database}
use trustedoss_portal.Samples.{member, user_row, token_row, store}
use trustedoss_portal.AdminUsers.{
  was_live, revoke, set_active, deactivated, deactivation, check_deactivate, Activation,
  deactivate_user,
}
use trustedoss_portal.AdminUsers.Rows.{
  user_id_of, apply_change, enforce_last_super_admin, update_user,
}
use trustedoss_portal.Sessions.{
  refresh_reuse_detected, jti_of, revoke_chain, TokenRequest, rotate_live, rotate_row,
  rotate_presented, rotate_refresh, revoked,
}
use trustedoss_portal.Sessions.Chain.{revoke_chain-ends}
use trustedoss_portal.Sessions.SingleUse.{second_rotation_detected}
use trustedoss_portal.Sessions.Reuse.{IsChained}
use trustedoss_portal.Sessions.Deactivated.{is_reuse, deactivated_cannot_rotate}

abbrev db : Database
db = store new pending ScanStatus.failed

abbrev request : Uuid → TokenRequest
request fresh = record {
  presented = some 201;
  now = 20;
  fresh_id = fresh;
  fresh_jti = fresh;
  new_expires = 2000;
}

rotated-ok : (rotate_refresh db db (request 202)).0 ≡ ok 202
unfolding rotate_refresh rotate_presented rotate_row rotate_live set_row revoked
rotated-ok = refl

second_rotation_detected_example :
    (rotate_refresh
      (rotate_refresh db db (request 202)).1
      (rotate_refresh db db (request 202)).1
      (request 203)).0
    ≡ err refresh_reuse_detected
second_rotation_detected_example =
    second_rotation_detected db db (request 202) (request 203) 201 202 refl refl rotated-ok

unused_jti :
    any (λ (o : RefreshToken). o.jti == 203) (rotate_refresh db db (request 202)).1.refresh_tokens
    ≡ false
unfolding rotate_refresh rotate_presented rotate_row rotate_live set_row revoked
unused_jti = refl

-- A token that was rotated at 10, and its live successor.
abbrev chain : List RefreshToken
chain = token_row 112 12 202 (some 201) none ∷ token_row 111 12 201 none (some 10) ∷ []

chain-IsChained : IsChained chain
chain-IsChained = record { all = (refl, (refl, tt)) }

abbrev replayed : Database
replayed = record db { refresh_tokens = chain }

revoke_chain-ends_example :
    is_some (revoke_chain (suc (length chain)) [] (some 202) "reuse_detected" 20 chain) ≡ true
revoke_chain-ends_example = revoke_chain-ends (some 202) "reuse_detected" 20 chain

abbrev leave : Activation
leave = record {
  actor = member 11 Role.super_admin 1;
  user_id = 12;
  now = 9;
  trigger_view = db.users;
}

abbrev left : Database
left =
    deactivated db db leave
      (set_row user_id_of 12 (apply_change (set_active false 9) (user_row 12 true false)) db.users)

leave-ok : (deactivate_user db db leave).0 ≡ ok left
unfolding deactivate_user check_deactivate deactivation update_user enforce_last_super_admin
    deactivated
leave-ok = refl

abbrev ended : RefreshToken
ended = revoke 9 (token_row 111 12 201 none none)

ended-found : find jti_of 201 (deactivate_user db db leave).1.refresh_tokens ≡ some ended
unfolding deactivate_user check_deactivate deactivation update_user enforce_last_super_admin
    deactivated revoke
ended-found = refl

deactivated_cannot_rotate_example :
    (is_ok
        (rotate_refresh
          (deactivate_user db db leave).1
          (deactivate_user db db leave).1
          (request 203)).0
      ≡ false)
    × ((not (was_live 12 db.refresh_tokens ended.id)
          || is_reuse
              (rotate_refresh
                (deactivate_user db db leave).1
                (deactivate_user db db leave).1
                (request 203)).0)
        ≡ true)
deactivated_cannot_rotate_example =
    deactivated_cannot_rotate db db left leave (user_row 12 true false) (request 203) 201 ended
      leave-ok refl refl refl ended-found (unfold revoke in refl)
