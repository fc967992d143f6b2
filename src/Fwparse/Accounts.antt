-- ===== src/Fwparse/Accounts.antt =====
-- What the parsers account for: a line of a configuration is read or reported.
pub mod Iptables
pub mod Raw
pub mod Foreign
pub mod Asa
