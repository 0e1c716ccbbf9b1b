-- ===== src/Certificate.antt =====
-- verify/verifier_cli.py: the verification of a certificate.
pub mod Verifier
pub mod Accepted
pub mod Complete
