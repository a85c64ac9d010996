-- ===== src/Config.antt =====
-- config.go: `parsePluginConfig`, from the decoded YAML to a checked `pluginConfig`.
pub mod Checked
pub mod Names
pub mod Parse
pub mod Valid
pub mod Accepted
pub mod Defaults
