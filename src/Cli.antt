-- ===== src/Cli.antt =====
-- The command line of crates/usbipd: the sudoers fragment of sudoers.rs, and the device pairs and the
-- commands of main.rs. Text is its code points, but in Commands.
pub mod Sudoers
pub mod Pairs
pub mod Commands
pub mod Listing
