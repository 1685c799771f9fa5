-- ===== src/Irido.antt =====
-- irido/irido.go and irido/grapheme.go: the format of a message's content. `Graphemes` has the
-- clusters of a text, `Content` the values that the functions take and how they are read, `Preview`
-- what is made of them, and `Written` what ToJSON gives.
pub mod Graphemes
pub mod Content
pub mod Preview
pub mod Clusters
pub mod Written
pub mod RoundTrip
pub mod Rules
mod Tests
