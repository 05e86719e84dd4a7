-- ===== src/ModelInfo.antt =====
-- ModelManager.h and ModelManager.cpp: NnapiModelInfo, the run-time view of a model.
pub mod Model
pub mod Runtime
pub mod Memory
pub mod Requests
