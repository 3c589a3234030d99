-- ===== src/Tests.antt =====
-- The theorems at concrete inputs: a backend `app.local` on port 3000, and its requests.
mod Certificates
mod Containers
mod Data
mod Launches
mod Lifecycle
mod Operations
mod Polls
mod Renewals
mod Requests
mod Servers
mod Settings
mod Statuses
mod Waits
mod Wiring
