-- ===== src/Admission.antt =====
-- Admission of requests (source/services/Ultravisor-AdmissionPolicy.cjs): the sample of the queue and
-- the fleet, a token bucket per client, and the decision.
pub mod Sample
pub mod Tokens
pub mod Decide
pub mod Credit
pub mod Rates
