-- ===== src/Projects/Slugs.antt =====
-- One project for a slug in a team, over every run of requests.
use mathlib.Core.Path.{subst₂}
use trustedoss_portal.Prelude.{
  ◌≡◌, ◌≤◌, ap, inl, inr, String, true, ◌&&◌, List, [], ◌∷◌, ◌==◌, str_eq, eq_iff, ==_iff, Uuid,
  Timestamp, count_if, bit, ok, Result, commit, is_some, ok_inj, patched, sym, ◌∙◌, arith,
  Bool-cases, >>=-eq-ok, commit_inv, any-eq-false, count_if-set_row,
}
use trustedoss_portal.Model.{Project, Database}
use trustedoss_portal.Security.{CurrentUser}
use trustedoss_portal.Scans.Rows.{project_id_of}
use trustedoss_portal.Projects.Writes.{check_create-Created, check_write-Written}
use trustedoss_portal.Projects.{
  ProjectError, ProjectCreate, ProjectUpdate, new_project, slug_conflict, slug_in, check_create,
  create_project, with_project, edited, archived_row, check_write, put_project, update_project,
  archive_project, Request, create, update, archive, step, run,
}

-- `uq_projects_team_slug`
pub record IsUniqueSlug (db : Database) : Type 0 where
  pub at : (team_id : Uuid) (slug : String) → count_if (slug_in team_id slug) db.projects ≤ 1

slug_in_pair :
    (team_id : Uuid) (slug : String) (p : Project)
    → slug_in team_id slug p ≡ true
    → (p.team_id ≡ team_id) × (p.slug ≡ slug)
slug_in_pair team_id slug p h = elim (Bool-cases (p.team_id == team_id)) [
  | inl here ↦ ((==_iff p.team_id team_id).0 here, (eq_iff p.slug slug).0 (rw here at h))
  | inr other ↦ absurd (ground arith)
]

insert-count :
    (p : Project) (projects : List Project) (team_id : Uuid) (slug : String)
    → count_if (slug_in p.team_id p.slug) projects ≡ 0
    → count_if (slug_in team_id slug) projects ≤ 1
    → count_if (slug_in team_id slug) (p ∷ projects) ≤ 1
insert-count p projects team_id slug free below = elim (Bool-cases (slug_in team_id slug p)) [
  | inl takes ↦
      let (et, es) = slug_in_pair team_id slug p takes in
      let z : count_if (slug_in team_id slug) projects ≡ 0 =
        subst₂ (λ a b. count_if (slug_in a b) projects ≡ 0) et es free in
      omega (arith, z, ap bit takes)
  | inr other ↦ omega (arith, below, ap bit other)
]

create-IsUniqueSlug :
    (db : Database) (req : ProjectCreate) → IsUniqueSlug db → IsUniqueSlug (create_project db req).1
unfolding create_project
create-IsUniqueSlug db req u =
    commit_inv IsUniqueSlug (check_create db req) (with_project db) db u λ p passed. record {
      at = λ team_id slug.
          let c = check_create-Created db req p passed in
          rw (← c.written) (
            insert-count (new_project req) db.projects team_id slug
              (any-eq-false (slug_in req.team_id req.slug) db.projects c.free) (u.at team_id slug));
    }

-- A change that keeps the team and the slug of a project.
abbrev pub KeepsSlug : (Project → Result ProjectError Project) → Type 0
KeepsSlug change =
    (p p' : Project) → change p ≡ ok p' → (p'.team_id ≡ p.team_id) × (p'.slug ≡ p.slug)

write-IsUniqueSlug :
    (db : Database) (actor : CurrentUser) (id : Uuid)
    (change : Project → Result ProjectError Project)
    → KeepsSlug change
    → IsUniqueSlug db
    → IsUniqueSlug (commit (check_write db actor id change) (put_project id db) db).1
write-IsUniqueSlug db actor id change keeps u =
    commit_inv IsUniqueSlug (check_write db actor id change) (put_project id db) db u λ p passed.
      record {
        at = λ team_id slug.
            let w = check_write-Written db actor id change p passed in
            let (same_team, same_slug) = keeps w.before p w.changed in
            let same : slug_in team_id slug p ≡ slug_in team_id slug w.before =
              ap (λ t. (t == team_id) && str_eq p.slug slug) same_team
              ∙ ap (λ s. (w.before.team_id == team_id) && str_eq s slug) same_slug in
            omega (
              arith,
              u.at team_id slug,
              ap bit same,
              count_if-set_row project_id_of (slug_in team_id slug) id w.before p db.projects
                  w.found,
            );
      }

pub edited-KeepsSlug : (req : ProjectUpdate) → KeepsSlug (edited req)
edited-KeepsSlug req p p' h =
    let (name, _, rest) = >>=-eq-ok (patched slug_conflict req.name p.name) _ h in
    let (visibility, _, last) =
      >>=-eq-ok (patched slug_conflict req.visibility p.visibility) _ rest in
    let row = ok_inj last in
    (sym (ap (λ (q : Project). q.team_id) row), sym (ap (λ (q : Project). q.slug) row))

pub edited-id : (req : ProjectUpdate) (p p' : Project) → edited req p ≡ ok p' → p'.id ≡ p.id
edited-id req p p' h =
    let (_, _, rest) = >>=-eq-ok (patched slug_conflict req.name p.name) _ h in
    let (_, _, last) = >>=-eq-ok (patched slug_conflict req.visibility p.visibility) _ rest in
    sym (ap (λ (q : Project). q.id) (ok_inj last))

archived_row-KeepsSlug : (now : Timestamp) → KeepsSlug (λ p. ok (archived_row now p))
archived_row-KeepsSlug now p p' h = elim (Bool-cases (is_some p.archived_at)) [
  | inl archived ↦
      let row : p ≡ p' = ok_inj (rw archived at h) in
      (sym (ap (λ (q : Project). q.team_id) row), sym (ap (λ (q : Project). q.slug) row))
  | inr live ↦
      let row = ok_inj (rw live at h) in
      (sym (ap (λ (q : Project). q.team_id) row), sym (ap (λ (q : Project). q.slug) row))
]

step-IsUniqueSlug : (db : Database) (q : Request) → IsUniqueSlug db → IsUniqueSlug (step db q)
unfolding step update_project archive_project
step-IsUniqueSlug db (create req) u = create-IsUniqueSlug db req u
step-IsUniqueSlug db (update req) u =
    write-IsUniqueSlug db req.actor req.project_id (edited req) (edited-KeepsSlug req) u
step-IsUniqueSlug db (archive actor id now) u =
    write-IsUniqueSlug db actor id (λ p. ok (archived_row now p)) (archived_row-KeepsSlug now) u

-- No two projects of one team have the same slug: if that holds, it holds after every run of requests that create, change and archive projects, by whatever users.
pub run-IsUniqueSlug :
    (db : Database) (qs : List Request) → IsUniqueSlug db → IsUniqueSlug (run db qs)
unfolding run
run-IsUniqueSlug db [] u = u
run-IsUniqueSlug db (q ∷ qs) u = run-IsUniqueSlug (step db q) qs (step-IsUniqueSlug db q u)
