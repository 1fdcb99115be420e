-- ===== src/Rows/Access.antt =====
-- Rows of the tables for users, roles and sessions.
use wealth_track.Prelude.{ℕ, Option}
use wealth_track.Prelude.Text.{Text}

-- Milliseconds since 1970.
abbrev pub Time : Type 0
Time = ℕ

pub data ActorType : Type 0 where
  admin analyst uploader system : ActorType

pub record RoleRow : Type 0 where
  pub id : Text
  pub code : Text
  pub name : Text
  pub description : Option Text
  pub created_at : Time

pub record PermissionRow : Type 0 where
  pub id : Text
  pub code : Text
  pub description : Option Text
  pub created_at : Time

pub record RolePermissionRow : Type 0 where
  pub id : Text
  pub role_id : Text
  pub permission_id : Text
  pub created_at : Time

pub data UserStatus : Type 0 where
  active inactive suspended : UserStatus

pub record UserRow : Type 0 where
  pub id : Text
  pub name : Text
  pub email : Text
  pub password_hash : Text
  pub role_id : Text
  pub status : UserStatus
  pub last_login_at : Option Time
  pub created_at : Time
  pub updated_at : Time
  pub deleted_at : Option Time
  pub created_by : Option Text
  pub updated_by : Option Text

pub data SessionStatus : Type 0 where
  active revoked expired : SessionStatus

pub record AuthSessionRow : Type 0 where
  pub id : Text
  pub user_id : Text
  pub refresh_token_hash : Text
  pub status : SessionStatus
  pub ip_address : Option Text
  pub user_agent : Option Text
  pub last_seen_at : Option Time
  pub expires_at : Time
  pub created_at : Time
  pub revoked_at : Option Time

pub data Purpose : Type 0 where
  forgot_password set_password change_password : Purpose

pub data TokenStatus : Type 0 where
  issued used expired revoked : TokenStatus

pub record PasswordResetTokenRow : Type 0 where
  pub id : Text
  pub user_id : Text
  pub purpose : Purpose
  pub token_hash : Text
  pub status : TokenStatus
  pub expires_at : Time
  pub used_at : Option Time
  pub created_at : Time

pub data LoginOutcome : Type 0 where
  success failed blocked : LoginOutcome

pub record LoginAttemptRow : Type 0 where
  pub id : Text
  pub email : Text
  pub user_id : Option Text
  pub outcome : LoginOutcome
  pub failure_reason : Option Text
  pub ip_address : Option Text
  pub user_agent : Option Text
  pub correlation_id : Option Text
  pub attempted_at : Time
