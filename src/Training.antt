-- ===== src/Training.antt =====
-- The training programs: data preparation, sequences of frames, and the PredNet layer.
pub mod Numbers
pub mod Generator
pub mod Dataset
pub mod Settings
pub mod Model
pub mod Train
pub mod Distributed
pub mod Evaluate
pub mod Convert
pub mod Extrema
pub mod PredNet
mod Samples
mod DatasetSamples
mod NetSamples
mod ProgramSamples
mod EvaluateSamples
