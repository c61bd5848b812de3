-- ===== src/Data.antt =====
-- The values that the program's parts share: Python's floats as far as the program compares them,
-- JSON values with the `json` module as a parameter, and the records of
-- cognitive_runtime/contracts/execution_contract.py.
pub mod Float
pub mod Json
pub mod Contract
pub mod Trace
pub mod Normalize
pub mod Store
