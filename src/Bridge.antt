-- ===== src/Bridge.antt =====
-- bridge/: the program on the user's machine, which polls the relay, runs jobs and posts their results.
pub mod Paths
pub mod PathLaws
pub mod Attachments
pub mod AttachmentLaws
pub mod Messages
pub mod Registry
pub mod Process
pub mod ProcessLaws
pub mod Poll
pub mod PollLaws
pub mod Logs
pub mod LogSafety
pub mod LogLaws
pub mod ConfigFile
pub mod LineLaws
pub mod ConfigFileLaws
pub mod FileLines
pub mod FileLaws
pub mod Config
pub mod ConfigLaws
pub mod Settings
pub mod SettingLaws
mod Tests
mod ConfigTests
