-- ===== src/Http.antt =====
-- The HTTP handler: src/handlers/cpphttphandler/cpphttphandler.cc and its header
-- include/threadserver/handlers/cpphttphandler/cpphttphandler.h. One child for each part.
pub mod Params
pub mod Message
pub mod Library
pub mod Mime
pub mod Methods
pub mod Worker
pub mod Thread
