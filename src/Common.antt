-- ===== src/Common.antt =====
-- src/common: the enumerations of CommonDefinition.h, and the shared interfaces.
pub mod Details
pub mod Text
pub mod Os
pub mod Handler
pub mod Ssl
