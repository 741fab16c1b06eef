-- ===== src/Report.antt =====
-- queuedata, test/transfer.c, read_proc_rbfgrad_ and the tracepoint probe: how samples and options leave
-- the kernel by /proc files, and their readers.
pub mod Text
pub mod QueueData
pub mod Session
pub mod Cat
pub mod Cats
pub mod Reload
pub mod Transfer
pub mod Row
pub mod Rows
pub mod RoundTrip
pub mod Readers
pub mod Loading
pub mod Probe
pub mod Ring
pub mod Drain
pub mod Recorded
pub mod ParamsRead
pub mod Vars
pub mod VarsRead
