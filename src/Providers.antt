-- ===== src/Providers.antt =====
-- packages/providers: the provider boundary and the one way in which a paid request is run.
pub mod Types
pub mod Execute
