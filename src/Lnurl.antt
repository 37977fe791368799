-- ===== src/Lnurl.antt =====
-- Payments to LNURLs and lightning addresses, libs/gl-client/src/lnurl.
pub mod Pay
pub mod Withdraw
