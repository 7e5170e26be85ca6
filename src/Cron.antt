-- ===== src/Cron.antt =====
-- src/django_ox/cron.py: five-field cron expressions. Calendar is what it uses of Python's datetime,
-- Parse reads an expression, Walk finds the ticks around an instant.
pub mod Calendar
pub mod Parse
pub mod Walk
pub mod Text
pub mod Ordinal
pub mod Ticks
