-- ===== src/ApiKeys/Steps/Visible.antt =====
-- Who sees a key: the tenant gate of the list query beside the check on a loaded row.
use trustedoss_portal.Prelude.{
  ◌≡◌, refl, ap, sym, Bool, true, false, ◌&&◌, ◌||◌, Option, none, some, List, holds, is_some, Uuid,
  contains,
}
use trustedoss_portal.Model.{KeyScope, org, team, project, ApiKey}
use trustedoss_portal.Security.{CurrentUser, is_super}
use trustedoss_portal.ApiKeys.{
  within, is_team_scope, is_project_scope, scope_consistent, can_view_key,
}
use trustedoss_portal.ApiKeys.Steps.{visible}
use trustedoss_portal.ApiKeys.Steps.Invariant.{IsScoped}

or_false : (b : Bool) → (b || false) ≡ b
or_false true = refl
or_false false = refl

scope_agreement :
    (scope : KeyScope) (team_id project_id : Option Uuid) (ids : List Uuid)
    → scope_consistent scope team_id project_id ≡ true
    → within team_id ids ≡ (
        (is_team_scope scope && within team_id ids)
        || (is_project_scope scope && (is_some project_id && within team_id ids)))
unfolding scope_consistent
scope_agreement org none project_id ids h = refl
scope_agreement org (some t) project_id ids h = cc
scope_agreement team none project_id ids h = cc
scope_agreement team (some t) project_id ids h = sym (or_false (contains t ids))
scope_agreement project team_id none ids h = cc
scope_agreement project team_id (some p) ids h = refl
scope_agreement (KeyScope.other s) team_id project_id ids h = cc

-- For a key whose scope agrees with its team and project, the filter of the list query and the check on a loaded row give the same answer for every actor.
pub visible-can_view_key :
    (actor : CurrentUser) (key : ApiKey) → IsScoped key → visible actor key ≡ can_view_key actor key
unfolding visible can_view_key
visible-can_view_key actor key scoped =
    ap (λ b. is_super actor || (holds key.created_by_user_id actor.id || b))
      (scope_agreement key.scope key.team_id key.project_id actor.team_ids scoped)
