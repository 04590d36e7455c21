-- ===== src/CApi.antt =====
-- The C interface (NK_C_API.cc, NK_C_API.h).
pub mod Status
pub mod Calls
pub mod StorageCalls
pub mod Results
pub mod Structs
pub mod Infos
pub mod Login
pub mod Texts
pub mod Answered
