-- ===== src/Ssrf.antt =====
-- backend/app/ssrf.py: which targets the server may contact, as a policy on addresses, on URLs, on
-- the answers of the resolver and on every hop of a fetch.
pub mod Examples
pub mod Address
pub mod Policy
pub mod Url
pub mod Fetch
