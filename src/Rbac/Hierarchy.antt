-- ===== src/Rbac/Hierarchy.antt =====
-- The three roles of backend/app/rbac/policy.py form a chain.
use cloud_ward.Prelude.{ℕ, ◌≤◌, ◌≡◌, true, arith}
use cloud_ward.Rbac.{Role, viewer, operator, admin, Permission, has_permission}

abbrev pub rank : Role → ℕ
rank viewer = 0
rank operator = 1
rank admin = 2

-- A role of higher rank has every permission of a role of lower rank.
pub has_permission_mono :
    (r s : Role) (p : Permission)
    → rank r ≤ rank s
    → has_permission r p ≡ true
    → has_permission s p ≡ true
unfolding has_permission
has_permission_mono r s p h k = ground arith
