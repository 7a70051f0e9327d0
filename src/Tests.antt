-- ===== src/Tests.antt =====
-- Runs of the definitions on concrete inputs, and witnesses of the theorems.
mod ToyWire
mod RankedRuns
mod TradeBoxRuns
mod DeliveryRuns
mod SessionRuns
mod RoomRuns
mod ValidationRuns
mod ToyRoom
mod FieldRuns
mod DocumentRuns
mod JoinRuns
