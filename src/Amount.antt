-- ===== src/Amount.antt =====
-- Amounts of factoids as text (util.go): `FactoshiToFactoid` and `FactoidToFactoshi`.
pub mod Print
pub mod Parse
pub mod Digits
pub mod RoundTrip
mod Tests
