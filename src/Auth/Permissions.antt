-- ===== src/Auth/Permissions.antt =====
-- The role matrix of apps/api/app/core/permissions.py.
use sweetops.Base.{Bool, false, List, [], ◌∷◌, ◌||◌, ◌&&◌, not, if◌then◌else◌}
use sweetops.Text.{Text, text_eq, is_empty}
use sweetops.Digest.{codes}

abbrev pub elem : Text → List Text → Bool
elem x [] = false
elem x (y ∷ ys) = text_eq x y || elem x ys

-- `CANONICAL_ROLES`, which are the operational roles too.
abbrev pub canonical_roles : List Text
canonical_roles = codes "OWNER" ∷ codes "MANAGER" ∷ codes "KITCHEN" ∷ codes "CASHIER" ∷ []

-- `_ROLE_PERMISSIONS`, each set sorted.
abbrev pub owner_permissions : List Text
owner_permissions =
    codes "inventory:adjust"
    ∷ codes "inventory:read"
    ∷ codes "kitchen:orders:write"
    ∷ codes "kitchen:read"
    ∷ codes "owner:decisions:write"
    ∷ codes "owner:read"
    ∷ codes "payments:collect"
    ∷ codes "payments:read"
    ∷ codes "payments:refund"
    ∷ codes "setup:manage"
    ∷ codes "setup:read"
    ∷ []

unfoldable pub role_permissions : Text → List Text
role_permissions role =
    if text_eq role (codes "OWNER") || text_eq role (codes "MANAGER")
    then owner_permissions
    else if text_eq role (codes "KITCHEN")
    then codes "inventory:read" ∷ codes "kitchen:orders:write" ∷ codes "kitchen:read" ∷ []
    else if text_eq role (codes "CASHIER")
    then codes "payments:collect" ∷ codes "payments:read" ∷ []
    else []

module _ (upper : Text → Text) where
  -- `permissions_for_role`
  unfoldable pub permissions_for_role : Text → List Text
  permissions_for_role role_name =
      if is_empty role_name then [] else role_permissions (upper role_name)

  -- `is_operational_role`
  unfoldable pub is_operational_role : Text → Bool
  is_operational_role role_name = not (is_empty role_name) && elem (upper role_name) canonical_roles
