-- ===== src/Application/Errors.antt =====
-- packages/application/src/errors.ts: what the application throws.
use canalis.Base.{ℕ, String, Option}

pub data ApplicationErrorCode : Type 0 where
  validation_error : ApplicationErrorCode
  request_body_too_large : ApplicationErrorCode
  unsupported_media_type : ApplicationErrorCode
  origin_not_allowed : ApplicationErrorCode
  rate_limited : ApplicationErrorCode
  idempotency_key_invalid : ApplicationErrorCode
  idempotency_key_reused : ApplicationErrorCode
  idempotency_in_progress : ApplicationErrorCode
  concurrent_mutation : ApplicationErrorCode
  task_not_found : ApplicationErrorCode
  task_already_executed : ApplicationErrorCode
  task_not_active : ApplicationErrorCode
  invalid_task_transition : ApplicationErrorCode
  policy_not_found : ApplicationErrorCode
  policy_archived : ApplicationErrorCode
  provider_not_found : ApplicationErrorCode
  provider_id_taken : ApplicationErrorCode
  provider_disabled : ApplicationErrorCode
  provider_unhealthy : ApplicationErrorCode
  provider_mode_mismatch : ApplicationErrorCode
  provider_mode_unsupported : ApplicationErrorCode
  provider_runtime_not_connected : ApplicationErrorCode
  provider_execution_failed : ApplicationErrorCode
  provider_endpoint_invalid : ApplicationErrorCode
  provider_endpoint_insecure : ApplicationErrorCode
  provider_endpoint_blocked : ApplicationErrorCode
  provider_http_unhealthy : ApplicationErrorCode
  provider_network_mismatch : ApplicationErrorCode
  provider_asset_mismatch : ApplicationErrorCode
  provider_secret_key_not_configured : ApplicationErrorCode
  provider_secret_key_invalid : ApplicationErrorCode
  provider_credential_invalid : ApplicationErrorCode
  provider_credential_decrypt_failed : ApplicationErrorCode
  x402_expected_payment_required : ApplicationErrorCode
  x402_challenge_missing : ApplicationErrorCode
  x402_challenge_invalid : ApplicationErrorCode
  mpp_expected_payment_required : ApplicationErrorCode
  mpp_challenge_missing : ApplicationErrorCode
  channel_not_found : ApplicationErrorCode
  channel_not_ready : ApplicationErrorCode
  channel_network_mismatch : ApplicationErrorCode
  channel_recovery_required : ApplicationErrorCode
  channel_action_not_allowed : ApplicationErrorCode
  channel_finalization_ambiguous : ApplicationErrorCode
  live_sandbox_budget_exceeded : ApplicationErrorCode
  live_channels_not_open : ApplicationErrorCode
  live_channel_mode_required : ApplicationErrorCode
  live_channel_not_prepared : ApplicationErrorCode
  live_channel_open_evidence_missing : ApplicationErrorCode
  live_task_not_executed : ApplicationErrorCode
  settings_environment_network_mismatch : ApplicationErrorCode
  settings_explorer_network_mismatch : ApplicationErrorCode
  mainnet_acknowledgement_required : ApplicationErrorCode
  mainnet_asset_mint_required : ApplicationErrorCode
  mainnet_demo_mode_blocked : ApplicationErrorCode
  mainnet_demo_provider_blocked : ApplicationErrorCode
  mainnet_endpoint_insecure : ApplicationErrorCode
  mainnet_runtime_not_configured : ApplicationErrorCode
  local_runtime_mode_unavailable : ApplicationErrorCode
  default_policy_invalid : ApplicationErrorCode
  integration_protocol_unsupported : ApplicationErrorCode
  integration_connection_failed : ApplicationErrorCode
  integration_network_mismatch : ApplicationErrorCode
  integration_asset_mismatch : ApplicationErrorCode
  task_network_mismatch : ApplicationErrorCode
  task_asset_mismatch : ApplicationErrorCode
  developer_secret_not_configured : ApplicationErrorCode
  developer_secret_invalid : ApplicationErrorCode
  api_key_required : ApplicationErrorCode
  api_key_invalid : ApplicationErrorCode
  api_key_scope_required : ApplicationErrorCode
  api_key_not_found : ApplicationErrorCode
  sandbox_mainnet_blocked : ApplicationErrorCode
  sandbox_mode_unavailable : ApplicationErrorCode
  webhook_secret_invalid : ApplicationErrorCode
  webhook_url_invalid : ApplicationErrorCode
  webhook_url_insecure : ApplicationErrorCode
  webhook_url_blocked : ApplicationErrorCode
  webhook_not_found : ApplicationErrorCode
  webhook_delivery_not_found : ApplicationErrorCode
  workspace_not_found : ApplicationErrorCode
  workspace_access_denied : ApplicationErrorCode
  workspace_role_required : ApplicationErrorCode
  workspace_signer_required : ApplicationErrorCode
  workspace_member_not_found : ApplicationErrorCode
  workspace_invite_not_found : ApplicationErrorCode
  workspace_invite_conflict : ApplicationErrorCode
  workspace_signer_already_bound : ApplicationErrorCode
  workspace_last_owner_required : ApplicationErrorCode
  storage_not_configured : ApplicationErrorCode
  storage_error : ApplicationErrorCode
  auth_required : ApplicationErrorCode
  auth_challenge_not_found : ApplicationErrorCode
  auth_challenge_expired : ApplicationErrorCode
  auth_challenge_used : ApplicationErrorCode
  auth_wallet_mismatch : ApplicationErrorCode
  auth_signature_invalid : ApplicationErrorCode
  forbidden : ApplicationErrorCode

-- The `details` of an error: the seconds of a rate limit, or what a validation reports.
pub data Details : Type 0 where
  retry_after_seconds : ℕ → Details
  issues : String → Details

pub record ApplicationError : Type 0 where
  pub code : ApplicationErrorCode
  pub message : String
  pub status : ℕ
  pub details : Option Details
