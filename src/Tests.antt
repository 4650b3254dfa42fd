-- ===== src/Tests.antt =====
-- Tests and concrete instances of the theorems.
mod ChronicleRuns
mod StagingRuns
mod InventoryRuns
mod StructuredRuns
mod StoreRuns
mod ConversationRuns
mod WorldRuns
mod SystemRuns
mod NpcRuns
mod ProfileRuns
mod AnswerRuns
mod CallRuns
