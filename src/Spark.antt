-- ===== src/Spark.antt =====
-- driver/spark: the ADBC driver proper.
pub mod Like
pub mod Quote
pub mod Params
pub mod Database
pub mod Connection
pub mod Statement
pub mod Metadata
pub mod Objects
pub mod Listing
