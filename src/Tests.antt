-- ===== src/Tests.antt =====
-- Concrete inputs, tests by evaluation, and the instances of the theorems at them.
mod Machines
mod Selecting
mod Storing
mod Outboxing
mod Exiting
mod Configuring
mod Retaining
mod Validating
mod Queues
