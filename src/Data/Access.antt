-- ===== src/Data/Access.antt =====
-- Projects, users, roles and their effective-dated assignments.
use fun_makers_system.Base.{ℕ, Option, List}

pub record Project : Type 0 where
  pub id : ℕ
  pub org_id : ℕ

pub record Role : Type 0 where
  pub id : ℕ
  pub code : ℕ

-- Times are numbers of milliseconds.
pub record UserRole : Type 0 where
  pub user_id : ℕ
  pub role_id : ℕ
  pub effective_from : ℕ
  pub effective_to : Option ℕ

pub record ProjectAssignment : Type 0 where
  pub user_id : ℕ
  pub project_id : ℕ
  pub role_id : ℕ
  pub effective_from : ℕ
  pub effective_to : Option ℕ
  pub revoked_at : Option ℕ

pub record AccessTables : Type 0 where
  pub projects : List Project
  pub users : List ℕ
  pub roles : List Role
  pub user_roles : List UserRole
  pub assignments : List ProjectAssignment
