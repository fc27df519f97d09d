-- ===== src/Server/Handlers.antt =====
-- The RSocket handlers of the class that `PrintServer` prints, a module for each interaction model.
-- A handler finds the method by its number in the metadata, in a Java `switch`.
pub mod End
pub mod FireAndForget
pub mod RequestResponse
pub mod RequestStream
pub mod RequestChannel
pub mod Safe
pub mod Braces
