-- ===== src/Rbac.antt =====
-- backend/app/rbac/policy.py: roles, permissions and the check that a request handler depends on.
pub mod Hierarchy
use cloud_ward.Prelude.{ℕ, String, Bool, true, false, List, [], ◌∷◌, ◌||◌, ◌==◌, if◌then◌else◌}
use cloud_ward.Errors.{Result, ok, raised, forbidden}

pub data Role : Type 0 where
  viewer operator admin : Role

pub data Permission : Type 0 where
  platform_read incident_read audit_read incident_create action_approve_standard : Permission
  action_reject demo_trigger role_manage settings_manage policy_manage : Permission
  action_approve_higher_risk : Permission

-- The position in the enumeration, by which two permissions are compared.
abbrev pub permission_index : Permission → ℕ
permission_index platform_read = 0
permission_index incident_read = 1
permission_index audit_read = 2
permission_index incident_create = 3
permission_index action_approve_standard = 4
permission_index action_reject = 5
permission_index demo_trigger = 6
permission_index role_manage = 7
permission_index settings_manage = 8
permission_index policy_manage = 9
permission_index action_approve_higher_risk = 10

-- `frozenset(Permission)`
abbrev pub every_permission : List Permission
every_permission =
    platform_read ∷ incident_read ∷ audit_read ∷ incident_create ∷ action_approve_standard
    ∷ action_reject ∷ demo_trigger ∷ role_manage ∷ settings_manage ∷ policy_manage
    ∷ action_approve_higher_risk ∷ []

-- ROLE_PERMISSIONS
abbrev pub role_permissions : Role → List Permission
role_permissions viewer = platform_read ∷ incident_read ∷ audit_read ∷ []
role_permissions operator =
    platform_read ∷ incident_read ∷ audit_read ∷ incident_create ∷ action_approve_standard
    ∷ action_reject ∷ demo_trigger ∷ []
role_permissions admin = every_permission

abbrev pub includes : Permission → List Permission → Bool
includes p [] = false
includes p (q ∷ rest) = permission_index p == permission_index q || includes p rest

unfoldable pub has_permission : Role → Permission → Bool
has_permission role permission = includes permission (role_permissions role)

-- auth/schemas.py: the authenticated user.
pub record Principal : Type 0 where
  pub user_id : ℕ
  pub login : String
  pub role : Role
  pub persisted : Bool

-- The dependency that `require_permission` returns.
unfoldable pub require_permission : Permission → Principal → Result Principal
unfolding has_permission
require_permission permission principal =
    if has_permission principal.role permission then ok principal else raised forbidden 403
