-- ===== src/Identity/Links/Ports.antt =====
-- The provider of identity proofs and the sender of emails (src/umbral/application/identity/ports.py), and
-- the values they return (src/umbral/application/identity/contracts.py). What a call returns is a
-- function of its arguments here, one for each call of a service.
use umbral.Prelude.{ℕ, String, Bool, Option}
use umbral.Identity.Models.{Reply}

pub record ProviderProof : Type 0 where
  pub provider : String
  pub issuer : String
  pub subject : String
  pub verified_email : String
  pub verified_at : ℕ
  pub revocation_handle : Option String

pub record GeneratedMagicLink : Type 0 where
  pub capture_url : String
  pub generated_at : ℕ
  pub expires_at : ℕ

pub record EmailAcceptance : Type 0 where
  pub message_id : String
  pub accepted_at : ℕ

pub record IdentityProofPort : Type 0 where
  pub provider : String
  pub issuer : String
  pub generate_magic_link : ℕ → String → ℕ → Reply GeneratedMagicLink
  pub verify_magic_link : ℕ → String → ℕ → Reply ProviderProof
  -- whether `revoke_provider_session` returns
  pub revokes : String → Bool

pub record EmailPort : Type 0 where
  pub provider : String
  pub send_magic_link : ℕ → String → GeneratedMagicLink → ℕ → Reply EmailAcceptance

pub record SessionResult : Type 0 where
  pub session_id : ℕ
  pub user_id : ℕ
  pub token : String
  pub last_activity_at : ℕ
