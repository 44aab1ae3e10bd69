-- ===== src/Examples.antt =====
-- Runs of the model at concrete inputs.
mod SortedList
mod Texts
mod Filters
mod Events
mod Lists
mod Devices
mod Attributes
mod Handlers
mod Characters
mod Contexts
mod Devnums
mod Creation
mod Monitors
mod Scans
