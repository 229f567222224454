-- ===== src/Oauth/Linked.antt =====
-- A login and the external account that it is for.
use mathlib.Core.Path.{subst}
use trustedoss_portal.Prelude.{
  ◌≤◌, ◌≡◌, refl, sym, String, Bool, true, ◌&&◌, Option, none, some, ◌==◌, eq_iff, str_eq, count_if,
  find, find_by, find_by-holds, key-find, find-update_where, order_by, Result, ok, err,
}
use trustedoss_portal.Model.{Organization, User, OauthProvider, OauthIdentity, Database}
use trustedoss_portal.AdminTeams.Teams.{older, first_of}
use trustedoss_portal.Oauth.State.{
  OauthError, callback_failed, no_organization, integrity_error, OauthUserInfo, Callback,
}
use trustedoss_portal.Oauth.Resolution.{
  Resolved, is_provider, of_account, has_email, find_identity, identity_id_of, user_id_of,
  new_identity, flush, insert_identity, insert_user, insert_team, insert_membership, relinked,
  link_or_relink, new_user, personal_team, team_admin_row, with_membership, with_team, with_user,
  by_email, refreshed, without_identity, by_identity, resolved, resolve_or_create_user,
}
use trustedoss_portal.Oauth.Accounts.{
  IsUniqueAccount, Flushes, Gives, Flushes-flush, Gives-require, Flushes-eq-some,
  insert_identity-Flushes, find_by-key, refreshed-IsUniqueAccount, without_identity-IsUniqueAccount,
}

-- The identity of the session is the row of the account in the store, and it belongs to the user.
pub record IsHeld (info : OauthUserInfo) (r : Resolved) : Type 0 where
  pub unique : IsUniqueAccount r.flushed
  pub found : find identity_id_of r.identity.id r.flushed.oauth_identities ≡ some r.identity
  pub owner : r.identity.user_id ≡ r.user.id
  pub account : of_account info.provider info.provider_user_id r.identity ≡ true

account_refl : (p : OauthProvider) (id : String) → (is_provider p p && str_eq id id) ≡ true
account_refl OauthProvider.github id = (eq_iff id id).1 refl
account_refl OauthProvider.google id = (eq_iff id id).1 refl

module _ (req : Callback) (info : OauthUserInfo) where
  -- A new identity of a user, once its insert has been flushed.
  new_identity-IsHeld :
      (user : User) (db : Database)
      → IsUniqueAccount db
      → Flushes
          (λ d.
            IsHeld info
              (record { user = user; identity = new_identity req info user; flushed = d }))
          (insert_identity db (new_identity req info user))
  new_identity-IsHeld user db u =
      flushed-with (insert_identity db (new_identity req info user))
        (insert_identity-Flushes db (new_identity req info user) u)
    where
      flushed-with :
          (o : Option Database)
          → Flushes
              (λ d.
                IsUniqueAccount d
                × (find identity_id_of req.fresh_id d.oauth_identities
                    ≡ some (new_identity req info user)))
              o
          → Flushes
              (λ d.
                IsHeld info
                  (record { user = user; identity = new_identity req info user; flushed = d }))
              o
      flushed-with none h = tt
      flushed-with (some d) h = record {
        unique = h.0;
        found = h.1;
        owner = refl;
        account = account_refl info.provider info.provider_user_id;
      }

  relinked-IsHeld :
      (base : Database) → IsUniqueAccount base → Gives (IsHeld info) (relinked base info)
  relinked-IsHeld base u =
      Gives-require (IsHeld info) (find_identity base info) callback_failed _ λ existing found.
        Gives-require (IsHeld info) (find user_id_of existing.user_id base.users) callback_failed _
          λ re_user there. record {
            unique = u;
            found =
                find_by-key (of_account info.provider info.provider_user_id) base.oauth_identities
                  existing found (u.key existing.id);
            owner = sym (key-find user_id_of existing.user_id base.users re_user there);
            account =
                find_by-holds (of_account info.provider info.provider_user_id) base.oauth_identities
                  existing found;
          }

  link_or_relink-IsHeld :
      (base : Database) (user : User) (o : Option Database)
      → IsUniqueAccount base
      → Flushes
          (λ d.
            IsHeld info
              (record { user = user; identity = new_identity req info user; flushed = d }))
          o
      → Gives (IsHeld info) (link_or_relink base req info user o)
  link_or_relink-IsHeld base user none u h = relinked-IsHeld base u
  link_or_relink-IsHeld base user (some d) u h = h

  -- The inserts of users, teams and memberships leave the identities.
  keeps :
      (b : Bool) (db d : Database)
      → db.oauth_identities ≡ d.oauth_identities
      → IsUniqueAccount db
      → Flushes IsUniqueAccount (flush b d)
  keeps b db d same u = Flushes-flush IsUniqueAccount b d λ _. record {
    account = λ p id. subst (λ rows. count_if (of_account p id) rows ≤ 1) same (u.account p id);
    key = λ k. subst (λ rows. count_if (λ (i : OauthIdentity). i.id == k) rows ≤ 1) same (u.key k);
  }

  with_membership-IsHeld :
      (db : Database) → IsUniqueAccount db → Gives (IsHeld info) (with_membership req info db)
  with_membership-IsHeld db u =
      Gives-require (IsHeld info) (insert_membership db (team_admin_row req)) integrity_error _
        λ joined e.
          Gives-require (IsHeld info)
            (insert_identity joined (new_identity req info (new_user req info))) integrity_error _
            λ saved e'.
              Flushes-eq-some _ (insert_identity joined (new_identity req info (new_user req info)))
                saved
                (new_identity-IsHeld (new_user req info) joined (
                  Flushes-eq-some IsUniqueAccount (insert_membership db (team_admin_row req)) joined
                    (keeps _ db _ refl u) e))
                e'

  with_team-IsHeld :
      (o : Option Database) → Flushes IsUniqueAccount o → Gives (IsHeld info) (with_team req info o)
  with_team-IsHeld (some saved) h = with_membership-IsHeld saved h
  with_team-IsHeld none h = tt

  with_user-IsHeld :
      (base : Database) (org : Organization) (o : Option Database)
      → IsUniqueAccount base
      → Flushes IsUniqueAccount o
      → Gives (IsHeld info) (with_user base req info org o)
  with_user-IsHeld base org (some saved) u h =
      with_team-IsHeld (insert_team saved (personal_team req org req.team_slug))
        (keeps _ saved _ refl h)
  with_user-IsHeld base org none u h =
      Gives-require (IsHeld info) (find_by (has_email info.email) base.users) callback_failed _
        λ existing _.
          Gives-require (IsHeld info) (insert_identity base (new_identity req info existing))
            integrity_error _
            λ saved e.
              Flushes-eq-some _ (insert_identity base (new_identity req info existing)) saved
                (new_identity-IsHeld existing base u) e

  by_email-IsHeld :
      (seen base db : Database) (o : Option User)
      → IsUniqueAccount base
      → IsUniqueAccount db
      → Gives (IsHeld info) (by_email seen base db req info o)
  by_email-IsHeld seen base db (some user) ub u =
      link_or_relink-IsHeld base user (insert_identity db (new_identity req info user)) ub
        (new_identity-IsHeld user db u)
  by_email-IsHeld seen base db none ub u =
      Gives-require (IsHeld info) (first_of (order_by older seen.organizations)) no_organization _
        λ org _.
          with_user-IsHeld base org (insert_user db (new_user req info)) ub (keeps _ db _ refl u)

  -- The known account, with nothing in between the read and the write.
  by_identity-IsHeld :
      (db : Database) (i : OauthIdentity) (o : Option User)
      → IsUniqueAccount db
      → find_identity db info ≡ some i
      → find user_id_of i.user_id db.users ≡ o
      → Gives (IsHeld info) (by_identity db db req info i o)
  by_identity-IsHeld db i none u found there =
      by_email-IsHeld db db (without_identity i.id db) (find_by (has_email info.email) db.users) u
        (without_identity-IsUniqueAccount db i.id u)
  by_identity-IsHeld db i (some user) u found there = record {
    unique = refreshed-IsUniqueAccount db info i.id u;
    found =
        find-update_where identity_id_of (refreshed info) i.id i db.oauth_identities (λ _. refl)
          (find_by-key (of_account info.provider info.provider_user_id) db.oauth_identities i found
            (u.key i.id));
    owner = sym (key-find user_id_of i.user_id db.users user there);
    account =
        find_by-holds (of_account info.provider info.provider_user_id) db.oauth_identities i found;
  }

  pub resolve-IsHeld :
      (db : Database)
      → IsUniqueAccount db
      → Gives (IsHeld info) (resolve_or_create_user db db req info)
  unfolding resolve_or_create_user
  resolve-IsHeld db u = found-or (find_identity db info) refl
    where
      found-or :
          (o : Option OauthIdentity)
          → find_identity db info ≡ o
          → Gives (IsHeld info) (resolved db db req info o)
      found-or none e = by_email-IsHeld db db db (find_by (has_email info.email) db.users) u u
      found-or (some i) e = by_identity-IsHeld db i (find user_id_of i.user_id db.users) u e refl

  -- Whatever the snapshot, an account keeps one row.
  held_unique :
      (r : Result OauthError Resolved)
      → Gives (IsHeld info) r
      → Gives (λ s. IsUniqueAccount s.flushed) r
  held_unique (err e) h = tt
  held_unique (ok r) h = h.unique

  by_identity-IsUniqueAccount :
      (seen db : Database) (i : OauthIdentity) (o : Option User)
      → IsUniqueAccount db
      → Gives (λ s. IsUniqueAccount s.flushed) (by_identity seen db req info i o)
  by_identity-IsUniqueAccount seen db i none u = held_unique (by_identity seen db req info i none) (
      by_email-IsHeld seen db (without_identity i.id db) (find_by (has_email info.email) seen.users)
        u (without_identity-IsUniqueAccount db i.id u))
  by_identity-IsUniqueAccount seen db i (some user) u = refreshed-IsUniqueAccount db info i.id u

  pub resolve-IsUniqueAccount :
      (seen db : Database)
      → IsUniqueAccount db
      → Gives (λ s. IsUniqueAccount s.flushed) (resolve_or_create_user seen db req info)
  unfolding resolve_or_create_user
  resolve-IsUniqueAccount seen db u = found-or (find_identity seen info)
    where
      found-or :
          (o : Option OauthIdentity)
          → Gives (λ s. IsUniqueAccount s.flushed) (resolved seen db req info o)
      found-or none =
          held_unique (resolved seen db req info none)
            (by_email-IsHeld seen db db (find_by (has_email info.email) seen.users) u u)
      found-or (some i) =
          by_identity-IsUniqueAccount seen db i (find user_id_of i.user_id seen.users) u
