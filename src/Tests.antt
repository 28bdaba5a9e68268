-- ===== src/Tests.antt =====
-- Runs of the model at concrete inputs, and the theorems applied to them.
mod Buffer
mod Protocol
mod Printing
mod Sending
mod Commands
mod Responses
mod Delivery
mod Turns
mod Served
mod Serving
mod Client
