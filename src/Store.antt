-- ===== src/Store.antt =====
-- internal/whatsapp: the tables of the database that the service keeps itself.
pub mod Chats
pub mod Contacts
pub mod Instances
