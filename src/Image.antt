-- ===== src/Image.antt =====
-- rktlet/util and rktlet/image: the names of images, and the CRI image service.
pub mod Name
pub mod Store
