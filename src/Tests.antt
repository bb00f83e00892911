-- ===== src/Tests.antt =====
-- The development at concrete inputs.
mod Data
mod Requests
mod Access
mod Expenses
mod Committed
mod Csv
mod Listings
mod Graph
mod Org
mod Login
mod Settings
mod Logs
mod Pending
mod Handlers
mod Trail
