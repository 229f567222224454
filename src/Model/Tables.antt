-- ===== src/Model/Tables.antt =====
-- The store that the services share: one list of rows for each modelled table.
use trustedoss_portal.Prelude.{List, []}
use trustedoss_portal.Model.Accounts.{
  Organization, Team, User, Membership, RefreshToken, PasswordResetToken,
}
use trustedoss_portal.Model.Scans.{
  Project, Scan, Vulnerability, VulnerabilityFinding, License, LicenseFinding,
}
use trustedoss_portal.Model.Approvals.{Component, ComponentApproval}
use trustedoss_portal.Model.Audit.{AuditLog}
use trustedoss_portal.Model.Keys.{ApiKey, WebhookDelivery}
use trustedoss_portal.Model.Identities.{OauthIdentity}

pub record Database : Type 0 where
  pub organizations : List Organization
  pub teams : List Team
  pub users : List User
  pub memberships : List Membership
  pub refresh_tokens : List RefreshToken
  pub password_reset_tokens : List PasswordResetToken
  pub projects : List Project
  pub scans : List Scan
  pub vulnerabilities : List Vulnerability
  pub vulnerability_findings : List VulnerabilityFinding
  pub licenses : List License
  pub license_findings : List LicenseFinding
  pub components : List Component
  pub component_approvals : List ComponentApproval
  pub audit_logs : List AuditLog
  pub api_keys : List ApiKey
  pub webhook_deliveries : List WebhookDelivery
  pub oauth_identities : List OauthIdentity

abbrev pub empty : Database
empty = record {
  organizations = [];
  teams = [];
  users = [];
  memberships = [];
  refresh_tokens = [];
  password_reset_tokens = [];
  projects = [];
  scans = [];
  vulnerabilities = [];
  vulnerability_findings = [];
  licenses = [];
  license_findings = [];
  components = [];
  component_approvals = [];
  audit_logs = [];
  api_keys = [];
  webhook_deliveries = [];
  oauth_identities = [];
}
