-- ===== src/Storage.antt =====
-- components/config_store/src/aiqa_config_nvs_ab.c: the record of the settings in two slots of the
-- NVS flash, and the head that says which slot counts.
pub mod Nvs
pub mod Fields
pub mod Slots
pub mod Erase
pub mod Reset
pub mod Head
pub mod Durable
pub mod Staging
pub mod Discarding
pub mod Activating
pub mod Ports
pub mod Updates
pub mod Load
pub mod Pending
pub mod Loading
pub mod Restart
pub mod Settled
pub mod Power
pub mod Tombstone
pub mod Resume
mod Memory
mod Tests
