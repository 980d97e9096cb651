-- ===== src/Tests.antt =====
-- Runs on concrete data, after tests/*.cpp, and the theorems at concrete inputs.
mod Instances
mod Core
mod Storage
mod Handler
mod Database
mod Service
mod Config
mod Sessions
mod Signals
mod Production
mod Concurrent
mod Application
mod Conversation
mod WorkerConversation
