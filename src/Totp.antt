-- ===== src/Totp.antt =====
-- Time-based one-time passwords: internal/auth/totp.go (the match of a code) and
-- internal/incidents/totp_second_factors.go (the factors with the last time step that was used).
pub mod Match
pub mod Factors
pub mod Replay
