-- ===== src/Values.antt =====
-- Automation values: the Go values of the API and the VARIANTs of the wire, and the conversions.
pub mod VarType
pub mod Data
pub mod Layout
pub mod Count
pub mod RoundTrip
pub mod Runtime
pub mod Dates
pub mod Write
pub mod Encode
pub mod Read
pub mod ReadArray
pub mod Decode
