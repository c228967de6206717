-- ===== src/Filters.antt =====
-- The filters of src/filters: the ones that edit headers, break a circuit, refuse an address, answer
-- a name, or rewrite a URL.
pub mod Headers
pub mod CircuitBreak
pub mod Access
pub mod Dns
pub mod Rewrite
