-- ===== src/Driver.antt =====
-- driver/openflash: the Linux driver. The definitions stand in State, Completion, Request, Kernel,
-- Errno, Admin, Setup, IoSetup, Recovery and Probe; the other children prove them correct.
pub mod State
pub mod Completion
pub mod Request
pub mod Drain
pub mod Ends
pub mod Kernel
pub mod Errno
pub mod Admin
pub mod Setup
pub mod IoSetup
pub mod Recovery
pub mod Probe
pub mod Holds
pub mod Io
pub mod Balance
pub mod Lists
pub mod IoUnwind
pub mod IoBalance
pub mod Teardown
pub mod Removal
pub mod Identify
pub mod Arrival
pub mod Restart
pub mod Dangling
pub mod Idle
pub mod Running
pub mod Returned
pub mod Frozen
pub mod Replied
pub mod Waiting
pub mod Waits
pub mod Queued
pub mod Handlers
pub mod Mapped
pub mod Accepted
pub mod Fua
pub mod Complete
pub mod Slots
pub mod Overrun
pub mod Fail
pub mod Refused
