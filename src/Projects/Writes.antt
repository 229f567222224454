-- ===== src/Projects/Writes.antt =====
-- What the writes of the project service have checked, and what they leave in the store.
use mathlib.Core.Path.{subst}
use trustedoss_portal.Prelude.{
  ◌≡◌, refl, ap, sym, ◌∙◌, inl, inr, Bool, true, false, not, some, is_some, ◌∷◌, ◌==◌, ==_refl,
  eq_iff, Uuid, Timestamp, any, Result, ok, err, guard, ◌>>◌, commit, commit-eq-ok, find, key-find,
  find-set_row_self, set_row-again, arith, Bool-cases, >>=-eq-ok, require-eq-ok, guard-eq-ok,
  ok_inj,
}
use trustedoss_portal.Model.{Team, User, Project, Database}
use trustedoss_portal.Security.{CurrentUser, can_access_team, assert_team_access}
use trustedoss_portal.Scans.Rows.{project_id_of}
use trustedoss_portal.Projects.{
  ProjectError, forbidden, slug_conflict, project_not_found, ProjectCreate, new_project, slug_in,
  check_create, create_project, with_project, load_project, get_project, archived_row,
  can_write_project, check_write, put_project, archive_project,
}

-- The access, and a slug that no project of the team has.
pub record Created (db : Database) (req : ProjectCreate) (p : Project) : Type 0 where
  pub access : can_access_team req.actor req.team_id ≡ true
  pub fresh : any (λ (q : Project). q.id == req.fresh_id) db.projects ≡ false
  pub free : any (slug_in req.team_id req.slug) db.projects ≡ false
  pub written : new_project req ≡ p

pub check_create-Created :
    (db : Database) (req : ProjectCreate) (p : Project)
    → check_create db req ≡ ok p
    → Created db req p
unfolding check_create assert_team_access
check_create-Created db req p h =
    let (_, access, h1) = >>=-eq-ok (assert_team_access req.actor req.team_id forbidden) _ h in
    let (_, fresh, h2) =
      >>=-eq-ok
        (guard (not (any (λ (q : Project). q.id == req.fresh_id) db.projects)) slug_conflict) _
        h1 in
    let (_, _, h3) =
      >>=-eq-ok (guard (any (λ (t : Team). t.id == req.team_id) db.teams) slug_conflict) _ h2 in
    let (_, _, h4) =
      >>=-eq-ok (guard (any (λ (u : User). u.id == req.actor.id) db.users) slug_conflict) _ h3 in
    let (_, free, written) =
      >>=-eq-ok (guard (not (any (slug_in req.team_id req.slug) db.projects)) slug_conflict)
        (λ _. ok (new_project req)) h4 in
    record {
      access = guard-eq-ok (can_access_team req.actor req.team_id) forbidden access;
      fresh =
          let g =
            guard-eq-ok (not (any (λ (q : Project). q.id == req.fresh_id) db.projects))
              slug_conflict fresh in
          ground arith;
      free =
          let g =
            guard-eq-ok (not (any (slug_in req.team_id req.slug) db.projects)) slug_conflict free in
          ground arith;
      written = ok_inj written;
    }

-- What a write finds and what its change makes of it.
pub record Written (db : Database) (actor : CurrentUser) (id : Uuid)
    (change : Project → Result ProjectError Project) (after : Project) : Type 0 where
  pub before : Project
  pub found : find project_id_of id db.projects ≡ some before
  pub writer : can_write_project actor before ≡ true
  pub changed : change before ≡ ok after

pub check_write-Written :
    (db : Database) (actor : CurrentUser) (id : Uuid)
    (change : Project → Result ProjectError Project) (after : Project)
    → check_write db actor id change ≡ ok after
    → Written db actor id change after
unfolding check_write
check_write-Written db actor id change after h =
    let (before, found, rest) = >>=-eq-ok (load_project db id) _ h in
    let (_, writer, changed) =
      >>=-eq-ok (guard (can_write_project actor before) forbidden) (λ _. change before) rest in
    record {
      before = before;
      found = require-eq-ok (find project_id_of id db.projects) project_not_found found;
      writer = guard-eq-ok (can_write_project actor before) forbidden writer;
      changed = changed;
    }

get_found :
    (db : Database) (actor : CurrentUser) (id : Uuid) (p : Project)
    → find project_id_of id db.projects ≡ some p
    → can_access_team actor p.team_id ≡ true
    → get_project db actor id ≡ ok p
unfolding get_project assert_team_access
get_found db actor id p found reached = rw found (rw reached refl)

-- A check in front of a refusal with the same error.
guard-refused :
    (b : Bool) (e : ProjectError) (next : Result ProjectError Project)
    → next ≡ err e
    → (do guard b e; next) ≡ err e
guard-refused true e next h = h
guard-refused false e next h = refl

create_taken :
    (db : Database) (req : ProjectCreate)
    → can_access_team req.actor req.team_id ≡ true
    → any (slug_in req.team_id req.slug) db.projects ≡ true
    → create_project db req ≡ (err slug_conflict, db)
unfolding create_project check_create assert_team_access
create_taken db req reached taken =
    let refused : check_create db req ≡ err slug_conflict = rw reached (
      guard-refused (not (any (λ (p : Project). p.id == req.fresh_id) db.projects)) slug_conflict _
        (guard-refused (any (λ (t : Team). t.id == req.team_id) db.teams) slug_conflict _ (
          guard-refused (any (λ (u : User). u.id == req.actor.id) db.users) slug_conflict _
            (rw taken refl)))) in
    ap (λ r. commit r (with_project db) db) refused

-- A project that was created is there for every user who can access its team, the creator among them, and a second request with the same slug in the team by any such user is refused as a conflict.
pub create_project-get :
    (db : Database) (req again : ProjectCreate) (p : Project)
    → (create_project db req).0 ≡ ok p
    → again.team_id ≡ req.team_id
    → again.slug ≡ req.slug
    → can_access_team again.actor req.team_id ≡ true
    → (can_access_team req.actor p.team_id ≡ true)
      × (get_project (create_project db req).1 again.actor p.id ≡ ok p)
      × (create_project (create_project db req).1 again
          ≡ (err slug_conflict, (create_project db req).1))
unfolding create_project
create_project-get db req again p h same_team same_slug reached =
    let (checked, saved) = commit-eq-ok (check_create db req) (with_project db) db h in
    let c = check_create-Created db req p checked in
    let there : find project_id_of p.id (p ∷ db.projects) ≡ some p = rw (==_refl p.id) refl in
    let team : p.team_id ≡ req.team_id = ap (λ (q : Project). q.team_id) (sym c.written) in
    let slug : p.slug ≡ req.slug = ap (λ (q : Project). q.slug) (sym c.written) in
    let taken : any (slug_in again.team_id again.slug) (p ∷ db.projects) ≡ true =
      rw (same_team, same_slug, team, slug, ==_refl req.team_id)
        (rw ((eq_iff req.slug req.slug).1 refl) refl) in
    (
      rw team c.access,
      ap (λ d. get_project d again.actor p.id) saved
          ∙ get_found (with_project db p) again.actor p.id p there (rw team reached),
      subst (λ d. create_project d again ≡ (err slug_conflict, d)) (sym saved)
          (create_taken (with_project db p) again (rw same_team reached) taken),
    )

-- The row that an archiving leaves is archived, and a later archiving leaves it.
archived_row-twice :
    (now later : Timestamp) (p : Project)
    → archived_row later (archived_row now p) ≡ archived_row now p
archived_row-twice now later p = elim (Bool-cases (is_some p.archived_at)) [
  | inl archived ↦ rw archived (rw archived refl)
  | inr live ↦ rw live refl
]

archived_row-id : (now : Timestamp) (p : Project) → (archived_row now p).id ≡ p.id
archived_row-id now p = elim (Bool-cases (is_some p.archived_at)) [
  | inl archived ↦ rw archived refl
  | inr live ↦ rw live refl
]

archive_found :
    (db : Database) (actor : CurrentUser) (id : Uuid) (now : Timestamp) (p : Project)
    → find project_id_of id db.projects ≡ some p
    → can_write_project actor p ≡ true
    → archive_project db actor id now
      ≡ (ok (archived_row now p), put_project id db (archived_row now p))
unfolding archive_project check_write
archive_found db actor id now p found writer = rw found (rw writer refl)

-- Archiving is idempotent: an archived project that is archived again later, by whoever may write it, is answered with the row of the first time, its moment included, and the store stays as it was.
pub archive_project-again :
    (db : Database) (actor second : CurrentUser) (id : Uuid) (now later : Timestamp) (p : Project)
    → (archive_project db actor id now).0 ≡ ok p
    → can_write_project second p ≡ true
    → archive_project (archive_project db actor id now).1 second id later
      ≡ (ok p, (archive_project db actor id now).1)
unfolding archive_project
archive_project-again db actor second id now later p h writer =
    let (checked, saved) =
      commit-eq-ok (check_write db actor id (λ q. ok (archived_row now q))) (put_project id db) db
        h in
    let w = check_write-Written db actor id (λ q. ok (archived_row now q)) p checked in
    let row : archived_row now w.before ≡ p = ok_inj w.changed in
    let kept : p.id ≡ id =
      ap (λ (q : Project). q.id) (sym row)
      ∙ archived_row-id now w.before
      ∙ key-find project_id_of id db.projects w.before w.found in
    let there : find project_id_of id (put_project id db p).projects ≡ some p =
      find-set_row_self project_id_of id w.before p db.projects w.found kept in
    let still : archived_row later p ≡ p =
      subst (λ q. archived_row later q ≡ q) row (archived_row-twice now later w.before) in
    subst (λ d. archive_project d second id later ≡ (ok p, d)) (sym saved)
      (archive_found (put_project id db p) second id later p there writer
        ∙ rw still (
            ap (λ ps. (ok p, record db { projects = ps }))
              (set_row-again project_id_of id p db.projects kept)))
