-- ===== src/Oauth/Methods.antt =====
-- What the guard of an unlink keeps.
use mathlib.Core.Path.{subst}
use trustedoss_portal.Prelude.{
  ℕ, ◌+◌, remove_row, ◌≡◌, refl, ap, ◌∙◌, inl, inr, String, Bool, true, false, ◌||◌, Option, none,
  some, List, [], ◌∷◌, ltb, leb, ◌==◌, ==_iff, bit, Uuid, count_if, count_if-remove_row, find,
  find_by, find_by-holds, ok, require, guard, >>=-eq-ok, require-eq-ok, guard-eq-ok, commit_inv,
  ok_inj, arith, Bool-cases,
}
use trustedoss_portal.Model.{User, OauthIdentity, Database}
use trustedoss_portal.Oauth.Resolution.{identity_id_of, user_id_of}
use trustedoss_portal.Oauth.Accounts.{IsUniqueAccount, find_by-key}
use trustedoss_portal.Oauth.Identities.{
  identity_not_found, unlink_blocks_login, of_user, count_identities, has_password, Unlink,
  is_owned, check_unlink, unlinked, unlink_oauth_identity,
}
use trustedoss_portal.Oauth.Logins.{unlink-IsUniqueAccount}

-- The user, if there, has a password hash that is not empty, or an external account.
abbrev pub has_hash_or_account : Option User → ℕ → Bool
has_hash_or_account none n = true
has_hash_or_account (some user) n = has_password user || leb 1 n

abbrev pub is_linked_or_hashed : Database → Uuid → Bool
is_linked_or_hashed db id =
    has_hash_or_account (find user_id_of id db.users) (count_identities db id)

-- What an unlink has checked.
record Checked (db : Database) (req : Unlink) (i : OauthIdentity) : Type 0 where
  pub user : User
  pub there : find user_id_of req.user_id db.users ≡ some user
  pub owned : find_by (is_owned req) db.oauth_identities ≡ some i
  pub fallback : (has_password user || ltb 1 (count_identities db req.user_id)) ≡ true

check_unlink-Checked :
    (db : Database) (req : Unlink) (i : OauthIdentity)
    → check_unlink db req ≡ ok i
    → Checked db req i
unfolding check_unlink
check_unlink-Checked db req i h =
    let (identity, owned, h1) =
      >>=-eq-ok (require (find_by (is_owned req) db.oauth_identities) identity_not_found) _ h in
    let (user, there, h2) =
      >>=-eq-ok (require (find user_id_of req.user_id db.users) identity_not_found) _ h1 in
    let (_, fallback, last) =
      >>=-eq-ok
        (guard (has_password user || ltb 1 (count_identities db req.user_id)) unlink_blocks_login)
        (λ _. ok identity) h2 in
    record {
      user = user;
      there = require-eq-ok (find user_id_of req.user_id db.users) identity_not_found there;
      owned =
          require-eq-ok (find_by (is_owned req) db.oauth_identities) identity_not_found owned
          ∙ ap some (ok_inj last);
      fallback =
          guard-eq-ok (has_password user || ltb 1 (count_identities db req.user_id))
            unlink_blocks_login fallback;
    }

one_remains : (b o : Bool) (m n : ℕ) → (b || ltb 1 n) ≡ true → m + bit o ≡ n → (b || leb 1 m) ≡ true
one_remains true o m n h e = refl
one_remains false o m n h e = ground (arith, h, e)

unlinked-is_linked_or_hashed :
    (hash : String → String) (db : Database) (req : Unlink) (i : OauthIdentity) (id : Uuid)
    → IsUniqueAccount db
    → Checked db req i
    → is_linked_or_hashed db id ≡ true
    → is_linked_or_hashed (unlinked hash req db i) id ≡ true
unlinked-is_linked_or_hashed hash db req i id u c h =
    let counted =
      count_if-remove_row identity_id_of (of_user id) i.id i db.oauth_identities
        (find_by-key (is_owned req) db.oauth_identities i c.owned (u.key i.id)) in
    let mine = find_by-holds (is_owned req) db.oauth_identities i c.owned in
    elim (Bool-cases (req.user_id == id)) [
      | inl same ↦
          let e : req.user_id ≡ id = (==_iff req.user_id id).0 same in
          let there : find user_id_of id db.users ≡ some c.user =
            subst (λ k. find user_id_of k db.users ≡ some c.user) e c.there in
          let fallback : (has_password c.user || ltb 1 (count_identities db id)) ≡ true =
            subst (λ k. (has_password c.user || ltb 1 (count_identities db k)) ≡ true) e
              c.fallback in
          ap
            (λ o.
              has_hash_or_account o
                (count_if (of_user id) (remove_row identity_id_of i.id db.oauth_identities)))
            there
          ∙ one_remains (has_password c.user) (of_user id i) _ (count_identities db id) fallback
              counted
      | inr other ↦
          let theirs : of_user id i ≡ false = ground (arith, mine, other) in
          let all_there : count_if (of_user id) (remove_row identity_id_of i.id db.oauth_identities)
              ≡ count_identities db id =
            omega (arith, counted, ap bit theirs) in
          ap (has_hash_or_account (find user_id_of id db.users)) all_there ∙ h
    ]

step-is_linked_or_hashed :
    (hash : String → String) (db : Database) (req : Unlink) (id : Uuid)
    → IsUniqueAccount db
    → is_linked_or_hashed db id ≡ true
    → is_linked_or_hashed (unlink_oauth_identity hash db req).1 id ≡ true
unfolding unlink_oauth_identity
step-is_linked_or_hashed hash db req id u h =
    commit_inv (λ d. is_linked_or_hashed d id ≡ true) (check_unlink db req) (unlinked hash req db)
      db h
      λ i passed.
        unlinked-is_linked_or_hashed hash db req i id u (check_unlink-Checked db req i passed) h

abbrev pub run_unlinks : (String → String) → Database → List Unlink → Database
run_unlinks hash db [] = db
run_unlinks hash db (req ∷ reqs) = run_unlinks hash (unlink_oauth_identity hash db req).1 reqs

-- Where no external account is linked twice and the ids of links are unique, whoever had a password hash
-- that is not empty, or an external account, before a run of unlinks has one of the two after it,
-- if each unlink finds the store that the one before it has left. The hash need not be that of a
-- password that the user knows: a user that complete_oauth has made has the hash of a random
-- text, and may unlink every account.
pub unlinks_keep_hash_or_account :
    (hash : String → String) (db : Database) (reqs : List Unlink) (id : Uuid)
    → IsUniqueAccount db
    → is_linked_or_hashed db id ≡ true
    → is_linked_or_hashed (run_unlinks hash db reqs) id ≡ true
unlinks_keep_hash_or_account hash db [] id u h = h
unlinks_keep_hash_or_account hash db (req ∷ reqs) id u h =
    unlinks_keep_hash_or_account hash (unlink_oauth_identity hash db req).1 reqs id
      (unlink-IsUniqueAccount hash db req u) (step-is_linked_or_hashed hash db req id u h)
