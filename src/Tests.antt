-- ===== src/Tests.antt =====
-- Runs of the model on small inputs, and the theorems at concrete inputs.
mod Rings
mod Flows
mod Queues
mod Ids
mod Channels
mod Files
mod Hangers
mod Entries
mod Sending
mod Reordering
mod Images
mod Lending
mod Posting
mod Answers
mod Signalling
mod Peering
