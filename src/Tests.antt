-- ===== src/Tests.antt =====
-- Concrete worlds, runs of the model on them, and an instance of each theorem that has conditions.
mod Samples
mod Economy
mod Escrows
mod Market
mod Payments
mod Shelf
mod Ownership
mod Routing
mod Calendar
mod Workers
mod Messaging
mod Accounts
mod Documents
