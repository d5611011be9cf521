-- ===== src/Go.antt =====
-- What the program uses of Go's standard library: instants and durations (`time`), error values
-- (`errors`, `fmt.Errorf`), the digits of a `big.Int`,
-- and the fields of certificates.
pub mod Time
pub mod Errors
pub mod Numerals
pub mod X509
pub mod Strings
pub mod Base64
pub mod Hex
