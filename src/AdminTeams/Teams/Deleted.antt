-- ===== src/AdminTeams/Teams/Deleted.antt =====
-- A team deleted with everything that belongs to it.
use trustedoss_portal.Prelude.{
  ◌≡◌, refl, ap, inl, inr, Bool, true, false, not, ◌&&◌, List, [], ◌∷◌, select, ◌==◌, Uuid, any,
  All, arith, Bool-cases, ok, guard, require, find, remove_row, >>=-eq-ok, guard-eq-ok, commit_inv,
}
use trustedoss_portal.Model.{
  Team, Membership, Project, Scan, VulnerabilityFinding, LicenseFinding, Database,
}
use mathlib.Core.Path.{subst}
use trustedoss_portal.Scans.Rows.{is_active}
use trustedoss_portal.AdminTeams.{team_id_of}
use trustedoss_portal.AdminTeams.Teams.{
  team_missing, has_active_scans, in_team, team_has_active_scans, owns_project, owns_scan, cascade,
  check_delete, delete_team,
}

abbrev pub is_live : Scan → Bool
is_live s = is_active s.status

-- A live scan of the team's projects is seen by the check.
owned-seen :
    (projects : List Project) (team_id : Uuid) (s : Scan) (rest : List Scan)
    → is_live s ≡ true
    → team_has_active_scans projects (s ∷ rest) team_id ≡ false
    → owns_project projects team_id s.project_id ≡ false
owned-seen [] team_id s rest live h = refl
owned-seen (p ∷ ps) team_id s rest live h = ground (arith, owned-seen ps team_id s rest live)

seen_in_rest :
    (projects : List Project) (team_id : Uuid) (s : Scan) (rest : List Scan)
    → team_has_active_scans projects (s ∷ rest) team_id ≡ false
    → team_has_active_scans projects rest team_id ≡ false
seen_in_rest [] team_id s rest h = refl
seen_in_rest (p ∷ ps) team_id s rest h = ground (arith, seen_in_rest ps team_id s rest)

-- The scan as a read of the table showed it: the same row, in the same project, and live.
abbrev pub shown_live : List Scan → Scan → Bool
shown_live seen s = any (λ r. is_live r && ((r.id == s.id) && (r.project_id == s.project_id))) seen

shown_same :
    (r s : Scan)
    → (is_live r && ((r.id == s.id) && (r.project_id == s.project_id))) ≡ true
    → (is_live r ≡ true) × (r.project_id ≡ s.project_id)
shown_same r s h = ground arith

shown_not_owned :
    (projects : List Project) (team_id : Uuid) (seen : List Scan) (s : Scan)
    → team_has_active_scans projects seen team_id ≡ false
    → shown_live seen s ≡ true
    → owns_project projects team_id s.project_id ≡ false
shown_not_owned projects team_id [] s idle shown = absurd (cc shown)
shown_not_owned projects team_id (r ∷ rest) s idle shown =
    elim (Bool-cases (is_live r && ((r.id == s.id) && (r.project_id == s.project_id)))) [
      | inl here ↦
          let (live, same) = shown_same r s here in
          subst (λ k. owns_project projects team_id k ≡ false) same
            (owned-seen projects team_id r rest live idle)
      | inr other ↦
          shown_not_owned projects team_id rest s (seen_in_rest projects team_id r rest idle)
            (rw other at shown)
    ]

shown_kept :
    (projects : List Project) (team_id : Uuid) (seen scans : List Scan)
    → team_has_active_scans projects seen team_id ≡ false
    → select
        (shown_live seen)
        (select (λ (s : Scan). not (owns_project projects team_id s.project_id)) scans)
      ≡ select (shown_live seen) scans
shown_kept projects team_id seen [] idle = refl
shown_kept projects team_id seen (s ∷ rest) idle =
    let ih = shown_kept projects team_id seen rest idle in
    elim (Bool-cases (shown_live seen s)) [
      | inl shown ↦
          rw (shown_not_owned projects team_id seen s idle shown) (rw shown (ap (λ xs. s ∷ xs) ih))
      | inr unseen ↦ elim (Bool-cases (owns_project projects team_id s.project_id)) [
        | inl owned ↦ rw (owned, unseen) ih
        | inr other ↦ rw other (rw unseen ih)
      ]
    ]

-- A row that a test finds is still there once the rows of another test are gone, if no row passes both.
found_kept {ℓ} :
    {A : Type ℓ} (q r : A → Bool) (xs : List A)
    → any q xs ≡ true
    → any (λ x. r x && q x) xs ≡ false
    → any q (select (λ x. not (r x)) xs) ≡ true
found_kept q r [] h k = h
found_kept q r (x ∷ xs) h k = ground (arith, found_kept q r xs)

any-remove_row_ne :
    (k j : Uuid) (teams : List Team)
    → (k == j) ≡ false
    → any (λ (t : Team). t.id == j) teams ≡ true
    → any (λ (t : Team). t.id == j) (remove_row team_id_of k teams) ≡ true
unfolding remove_row
any-remove_row_ne k j [] apart h = h
any-remove_row_ne k j (t ∷ ts) apart h = ground (arith, any-remove_row_ne k j ts apart)

abbrev HasTeam : Database → Uuid → Type 0
HasTeam db i = any (λ (t : Team). t.id == i) db.teams ≡ true

abbrev HasProject : Database → Uuid → Type 0
HasProject db i = any (λ (p : Project). p.id == i) db.projects ≡ true

abbrev HasScan : Database → Uuid → Type 0
HasScan db i = any (λ (s : Scan). s.id == i) db.scans ≡ true

-- The foreign keys below a team.
pub record IsReferential (db : Database) : Type 0 where
  pub memberships : All (λ (m : Membership). HasTeam db m.team_id) db.memberships
  pub projects : All (λ (p : Project). HasTeam db p.team_id) db.projects
  pub scans : All (λ (s : Scan). HasProject db s.project_id) db.scans
  pub findings : All (λ (f : VulnerabilityFinding). HasScan db f.scan_id) db.vulnerability_findings
  pub licenses : All (λ (f : LicenseFinding). HasScan db f.scan_id) db.license_findings

-- Rows that pass both a test and a fact.
All-select_with {ℓ κ ι} :
    {A : Type ℓ} (P : A → Type κ) (Q : A → Type ι) (keep : A → Bool) (xs : List A)
    → ((x : A) → keep x ≡ true → P x → Q x)
    → All P xs
    → All Q (select keep xs)
All-select_with P Q keep [] f h = tt
All-select_with P Q keep (x ∷ xs) f (hx, h) = elim (Bool-cases (keep x)) [
  | inl kept ↦ rw kept (f x kept hx, All-select_with P Q keep xs f h)
  | inr gone ↦ rw gone (All-select_with P Q keep xs f h)
]

not-true : (b : Bool) → not b ≡ true → b ≡ false
not-true true h = absurd (cc h)
not-true false h = refl

module _ (db : Database) (team_id : Uuid) where
  team_kept : (i : Uuid) → not (i == team_id) ≡ true → HasTeam db i → HasTeam (cascade db team_id) i
  unfolding cascade
  team_kept i apart h = any-remove_row_ne team_id i db.teams (ground (arith, apart)) h

  project_kept :
      (i : Uuid)
      → not (owns_project db.projects team_id i) ≡ true
      → HasProject db i
      → HasProject (cascade db team_id) i
  unfolding cascade
  project_kept i other h =
      found_kept (λ (p : Project). p.id == i) (in_team team_id) db.projects h
        (not-true (owns_project db.projects team_id i) other)

  scan_kept :
      (i : Uuid)
      → not (owns_scan db team_id i) ≡ true
      → HasScan db i
      → HasScan (cascade db team_id) i
  unfolding cascade
  scan_kept i other h =
      found_kept (λ (s : Scan). s.id == i)
        (λ (s : Scan). owns_project db.projects team_id s.project_id) db.scans h
        (not-true (owns_scan db team_id i) other)

cascade-IsReferential :
    (db : Database) (team_id : Uuid) → IsReferential db → IsReferential (cascade db team_id)
unfolding cascade
cascade-IsReferential db team_id r = record {
  memberships =
      All-select_with _ _ _ db.memberships (λ m kept h. team_kept db team_id m.team_id kept h)
        r.memberships;
  projects =
      All-select_with _ _ _ db.projects (λ p kept h. team_kept db team_id p.team_id kept h)
        r.projects;
  scans =
      All-select_with _ _ _ db.scans (λ s kept h. project_kept db team_id s.project_id kept h)
        r.scans;
  findings =
      All-select_with _ _ _ db.vulnerability_findings
        (λ f kept h. scan_kept db team_id f.scan_id kept h) r.findings;
  licenses =
      All-select_with _ _ _ db.license_findings (λ f kept h. scan_kept db team_id f.scan_id kept h)
        r.licenses;
}

cascade-shown :
    (db : Database) (team_id : Uuid) (seen : List Scan)
    → team_has_active_scans db.projects seen team_id ≡ false
    → select (shown_live seen) (cascade db team_id).scans ≡ select (shown_live seen) db.scans
unfolding cascade
cascade-shown db team_id seen idle = shown_kept db.projects team_id seen db.scans idle

check_delete-eq-ok :
    (seen : List Scan) (db : Database) (team_id : Uuid) (team : Team)
    → check_delete seen db team_id ≡ ok team
    → team_has_active_scans db.projects seen team_id ≡ false
unfolding check_delete
check_delete-eq-ok seen db team_id team h =
    let (_, _, h1) = >>=-eq-ok (require (find team_id_of team_id db.teams) team_missing) _ h in
    let (_, idle, _) =
      >>=-eq-ok (guard (not (team_has_active_scans db.projects seen team_id)) has_active_scans) _
        h1 in
    not-true (team_has_active_scans db.projects seen team_id)
      (guard-eq-ok (not (team_has_active_scans db.projects seen team_id)) has_active_scans idle)

-- Deleting a team never takes away a scan that its check has read as queued or running: whether the
-- delete is accepted or refused, the rows of those scans are afterwards what they were before it, in
-- their order. A scan that is triggered between that read and the delete is not held off, and goes
-- with its project. And where every membership and project refers to a team that is there, every
-- scan to its project and every finding to its scan, they still do.
pub delete_team-live :
    (seen : List Scan) (db : Database) (team_id : Uuid)
    → IsReferential db
    → (select (shown_live seen) (delete_team seen db team_id).1.scans
        ≡ select (shown_live seen) db.scans)
      × IsReferential (delete_team seen db team_id).1
unfolding delete_team
delete_team-live seen db team_id r = (
  commit_inv
      (λ (after : Database).
        select (shown_live seen) after.scans ≡ select (shown_live seen) db.scans)
      (check_delete seen db team_id) (λ _. cascade db team_id) db refl
      (λ team passed.
        cascade-shown db team_id seen (check_delete-eq-ok seen db team_id team passed)),
  commit_inv IsReferential (check_delete seen db team_id) (λ _. cascade db team_id) db r
      (λ team passed. cascade-IsReferential db team_id r),
)
