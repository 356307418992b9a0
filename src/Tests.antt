-- ===== src/Tests.antt =====
-- Runs at concrete inputs, and each theorem of the results at an input that meets its hypotheses.
mod Toy
mod Text
mod Keys
mod Codes
mod Vault
mod Api
mod Lists
mod App
mod Passwords
mod Writes
