-- ===== src/Cli/Listing.antt =====
-- From the listing of crates/usbipd/src/main.rs to the daemon's policy.
