-- ===== src/Tests.antt =====
-- Inputs at which the theorems are applied, and runs of the code.
mod Inputs
mod Typos
mod Dns
mod Workers
mod Tables
mod Server
mod Processes
mod Resolver
mod Jobs
mod Emails
mod Lifecycle
mod Operations
