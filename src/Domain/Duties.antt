-- ===== src/Domain/Duties.antt =====
-- How packages/domain/src/rbac.ts separates the duties of the roles.
use atlas_rail.Common.{◌≡◌, ◌⊎◌, inl, inr, refl, true, arith}
use atlas_rail.Domain.Rbac.{UserRole, PermissionAction, has_permission}

abbrev MayBoth : UserRole → PermissionAction → PermissionAction → Type 0
MayBoth r a b = (has_permission r a ≡ true) × (has_permission r b ≡ true)

-- By `hasPermission` only an owner or an administrator may both create a payout and approve one, or both create a
-- mandate and sign one, or have a payout executed, a policy activated or a treasury frozen.
pub separated :
    (r : UserRole)
    → MayBoth r PermissionAction.payout_create PermissionAction.payout_approve
      ⊎ MayBoth r PermissionAction.mandate_create PermissionAction.mandate_sign
      ⊎ (has_permission r PermissionAction.payout_execute ≡ true)
      ⊎ (has_permission r PermissionAction.policy_activate ≡ true)
      ⊎ (has_permission r PermissionAction.treasury_freeze ≡ true)
    → (r ≡ UserRole.owner) ⊎ (r ≡ UserRole.admin)
unfolding has_permission
separated UserRole.owner h = inl refl
separated UserRole.admin h = inr refl
separated UserRole.operator h = ground arith
separated UserRole.approver h = ground arith
separated UserRole.auditor h = ground arith
separated UserRole.developer h = ground arith
