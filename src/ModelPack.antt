-- ===== src/ModelPack.antt =====
-- Model packs over OCI: images/controller/internal/adapters/modelpack/oci/layer_media_type.go,
-- chunk_layout.go and the layers of materialize_layers.go, with the paths of support/archiveio. JSON is a
-- parameter; an error is its format's text.
pub mod Results
pub mod MediaType
pub mod Layers
pub mod ChunkIndex
mod Examples
