-- ===== src/Tools.antt =====
-- internal/usecase/tools/files: the operations that the model's tool calls reach.
pub mod Compress
pub mod Archive
pub mod Stage
pub mod State
pub mod World
pub mod Calls
pub mod Character
pub mod Maintain
pub mod Npc
pub mod Scene
