-- ===== src/Tests.antt =====
-- Runs of the modelled code on concrete inputs, and the theorems at such inputs.
pub mod Data
pub mod OnTypes
pub mod OnForeign
pub mod OnVariadic
pub mod OnWindows
pub mod OnStatic
pub mod OnConstants
pub mod OnExports
pub mod OnDynamic
pub mod OnInit
pub mod OnThreads
pub mod World
pub mod OnCallback
pub mod OnFunctionType
pub mod OnLibrary
pub mod OnFfiCalls
