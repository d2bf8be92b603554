-- ===== src/Tests.antt =====
-- Runs of the models at concrete inputs.
mod StatesTests
mod SyncsTests
mod ListsTests
mod DispatchTests
mod SessionTests
mod AccountsTests
mod TypingTests
mod DownstreamTests
mod UpstreamTests
mod OfflineTests
mod DeviceTests
