-- ===== src/Datasets.antt =====
-- Datasets (src/datasets): their import from CSV, and their export.
pub mod Csv
