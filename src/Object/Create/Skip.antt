-- ===== src/Object/Create/Skip.antt =====
-- Reading what a message says of an object that is made, and skipping it.
use whoa.Object.DataStore.{DataStore, DataStoreLaws, ◌>>◌}
use whoa.Object.DataStore.Reads.{Reads, Same}
use whoa.Object.DataStore.Places.{IsPlaced}

module _ (d : DataStore) (laws : DataStoreLaws d) where
  -- Two stores at one place, in the message or just behind it.
  abbrev Both : d.Store → d.Store → Type 0
  Both s t = Same d laws s t × IsPlaced d laws s
