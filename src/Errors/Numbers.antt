-- ===== src/Errors/Numbers.antt =====
-- The numbers by which the broker names its errors.
use pulsar_rdg_rs.Prelude.{ℕ, ◌≡◌, refl, ap, ◌∙◌, ◌↔◌, some, arith}
use pulsar_rdg_rs.Prelude.Int.{ℤ, pos, negsuc}
use pulsar_rdg_rs.Errors.{ServerError, number, server_error, server_error_at}

pub server_error-number_back : (e : ServerError) → server_error (pos (number e)) ≡ some e
unfolding number server_error
server_error-number_back e = elim e as (λ e. server_error (pos (number e)) ≡ some e) [
  | ServerError.unknown_error ↦ refl
  | ServerError.metadata_error ↦ refl
  | ServerError.persistence_error ↦ refl
  | ServerError.authentication_error ↦ refl
  | ServerError.authorization_error ↦ refl
  | ServerError.consumer_busy ↦ refl
  | ServerError.service_not_ready ↦ refl
  | ServerError.producer_blocked_quota_exceeded_error ↦ refl
  | ServerError.producer_blocked_quota_exceeded_exception ↦ refl
  | ServerError.checksum_error ↦ refl
  | ServerError.unsupported_version_error ↦ refl
  | ServerError.topic_not_found ↦ refl
  | ServerError.subscription_not_found ↦ refl
  | ServerError.consumer_not_found ↦ refl
  | ServerError.too_many_requests ↦ refl
  | ServerError.topic_terminated_error ↦ refl
  | ServerError.producer_busy ↦ refl
  | ServerError.invalid_topic_name ↦ refl
  | ServerError.incompatible_schema ↦ refl
  | ServerError.consumer_assign_error ↦ refl
  | ServerError.transaction_coordinator_not_found ↦ refl
  | ServerError.invalid_txn_status ↦ refl
  | ServerError.not_allowed_error ↦ refl
  | ServerError.transaction_conflict ↦ refl
  | ServerError.transaction_not_found ↦ refl
  | ServerError.producer_fenced ↦ refl
]

server_error_at-number : (i : ℕ) (e : ServerError) → server_error (pos i) ≡ some e → i ≡ number e
unfolding number server_error server_error_at
server_error_at-number i e h = ground arith

-- An error code of 32 bits is read as an error of the broker exactly when it is that error's number
-- in the protocol.
pub server_error-number :
    (i : ℤ) (e : ServerError) → (server_error i ≡ some e) ↔ (i ≡ pos (number e))
unfolding server_error
server_error-number (pos i) e = (
  λ h. ap pos (server_error_at-number i e h),
  λ h. ap server_error h ∙ server_error-number_back e,
)
server_error-number (negsuc i) e = (λ h. cc, λ h. cc)
