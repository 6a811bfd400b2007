-- ===== src/R2Store.antt =====
-- r2store/store.go and r2.go: the keys of the objects, the configuration, the writer over an S3 client
-- and the public client over HTTP.
pub mod Config
pub mod Keys
pub mod Writer
pub mod PublicClient
