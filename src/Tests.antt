-- ===== src/Tests.antt =====
-- Concrete sessions and calls, and what the theorems say of them.
mod Admissions
mod Events
mod Keys
mod Meetings
mod Orders
mod Recordings
mod Requests
mod Samples
mod Services
mod Serving
mod Sessions
mod Workers
