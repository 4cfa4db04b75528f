-- ===== src/Tests.antt =====
-- Runs of the model on concrete inputs, and the theorems at such inputs.
mod Memory
mod Tables
mod Strings
mod Acpi
mod Boot
mod Output
mod Paging
