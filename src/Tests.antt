-- ===== src/Tests.antt =====
-- Runs of the definitions and instances of the theorems, on small concrete states.
mod HashTable
mod Heap
mod Avl
mod Conn
mod Db
mod Server
mod ZSet
mod Dispatch
