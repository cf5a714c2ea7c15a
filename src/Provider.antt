-- ===== src/Provider.antt =====
-- Calls of model providers made resilient (app/infrastructure/providers/ and
-- app/application/services/fallback_service.py).
pub mod Breaker
pub mod Retry
pub mod Fallback
pub mod Registry
pub mod Health
pub mod Service
