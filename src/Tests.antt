-- ===== src/Tests.antt =====
-- Runs of the model at concrete inputs.
mod Sample
mod Extracts
mod Decodes
mod Parses
mod Ciphers
mod Paths
mod Installers
mod Archives
mod Opens
