-- ===== src/Examples.antt =====
-- Runs of the program's parts on small inputs, and each theorem at an input of its own.
mod Messages
mod Framing
mod Strings
mod Values
mod Util
mod Streams
mod Connection
mod Client
