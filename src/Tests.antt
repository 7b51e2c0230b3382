-- ===== src/Tests.antt =====
-- Runs of the services' operations on small tables: each theorem that has conditions, applied where
-- they hold.
mod Pantry
mod Recount
mod Till
mod Pass
mod Sticker
mod Returns
mod Drawer
mod Badge
mod Carte
