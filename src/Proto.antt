-- ===== src/Proto.antt =====
-- The messages of drop/common/proto, as their generated getters and setters show them. A field of a
-- message type that was never set reads as that message's default, so it is a plain field here.
-- A `float` is the number of its IEEE 754 bit pattern: the code only stores it and passes it on.
pub mod Hotmethod
pub mod Rpc
