-- ===== src/Embed.antt =====
-- The embedding pipeline, embed/src: a worker claims images in the table, downloads and decodes
-- them, runs the models on batches of them, and writes the results back.
pub mod Images
pub mod Infer
pub mod Phase
mod Tests
