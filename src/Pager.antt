-- ===== src/Pager.antt =====
-- internal/pager: which pages are in use, which are free, and when a free one is handed out again.
pub mod Freelist
pub mod Counts
pub mod Accounts
pub mod Commit
pub mod CommitAccounts
pub mod Reading
pub mod ReadBack
pub mod Pending
pub mod Rolled
pub mod Reopen
pub mod Settles
pub mod Rollback
pub mod LedList
pub mod Guard
pub mod CommitGuard
pub mod Snapshots
pub mod Crash
pub mod CommitCrash
pub mod CommitOnce
pub mod Closing
pub mod FlushAccounts
pub mod Transaction
mod Tests
mod SafetyTests
