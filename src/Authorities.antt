-- ===== src/Authorities.antt =====
-- The certificate authorities: app/services/ca_service.py, app/services/name_constraints.py,
-- app/services/san.py, app/models/ca.py and app/models/ca_certificate.py.
pub mod Types
pub mod Text
pub mod Walk
pub mod Names
pub mod Constraints
pub mod Reaches
pub mod Enforced
pub mod Matching
pub mod Create
pub mod Created
pub mod CreatedRoot
pub mod Alternates
pub mod CrossSign
pub mod Chain
pub mod Tree
pub mod Steps
pub mod Growth
pub mod Descent
pub mod Chained
pub mod Reissue
pub mod Bundle
pub mod Ordered
pub mod Whole
pub mod Import
pub mod ImportChain
pub mod Unique
pub mod Unrepeated
pub mod Promotion
pub mod Forest
pub mod Imports
