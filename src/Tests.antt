-- ===== src/Tests.antt =====
-- Concrete inputs: runs of the definitions, and the theorems applied.
mod Base64Tests
mod UrlTests
mod UrlWitnesses
mod ErrorTests
mod SessionTests
mod HttpTests
mod HttpMessageTests
mod SessionHeaderTests
mod FileTests
mod DatagramTests
mod HandshakeTests
mod SharedTests
mod AcceptTests
mod ContextTests
mod CopyTests
mod NetTests
mod LogTests
