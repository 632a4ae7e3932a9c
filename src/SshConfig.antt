-- ===== src/SshConfig.antt =====
-- sshconfig.go: private keys and the configurations of client and server.
pub mod Files
pub mod Keys
pub mod Configs
pub mod Leaks
mod Examples
