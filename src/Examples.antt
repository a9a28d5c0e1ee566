-- ===== src/Examples.antt =====
-- The platform in memory, and the program run on it.
mod Deleted
mod InMemory
mod SlotLaws
mod Lawful
mod Tables
mod Tests
mod Facts
mod Witnesses
mod CsvText
mod RetentionInMemory
mod Samples
mod ServiceWitnesses
mod JobWitnesses
mod InviteWitnesses
mod PromptWitnesses
