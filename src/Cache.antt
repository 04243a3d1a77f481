-- ===== src/Cache.antt =====
-- cache.py, one module for each part. `Json` has the values that the payloads are made of, `Key` the
-- keys, `Backend` the interface to Django's cache framework, `Payload` the readers of the payloads,
-- and `Generation` and `Entries` the methods of `TemplateCache`.
pub mod Json
pub mod Key
pub mod Backend
pub mod Payload
pub mod Generation
pub mod Entries
pub mod Writes
pub mod Raises
