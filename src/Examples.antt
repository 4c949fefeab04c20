-- ===== src/Examples.antt =====
-- The theorems at concrete inputs.
mod Router
mod Pool
mod Req
mod Event
mod Meta
mod Connection
mod Server
mod Log
mod Memory
mod WhiteList
mod Hash
mod File
mod Ledger
mod PoolCalls
mod Partition
