-- ===== src/PyStager.antt =====
-- PyStager: stages a directory to another place with one master and many worker processes.
pub mod Parameters
pub mod System
pub mod Scanner
pub mod Structure
pub mod Distributor
pub mod Hashing
pub mod Worker
pub mod Protocol
pub mod Master
pub mod Main
mod Samples
mod LineSamples
