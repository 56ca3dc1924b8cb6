-- ===== src/Hazptr/Owns.antt =====
-- src/concurrent/hazptr.h, src/concurrent/hazptr.hpp: which record a holder has, which objects
-- a reclaimer has.
use wizard.Prelude.{
  ℕ, ◌+◌, Bool, true, false, Option, none, some, List, [], ◌++◌, ◌==◌, if◌then◌else◌,
}
use wizard.Hazptr.{HazptrRecord, Phase, linked, unlinked, retired, Holder, ReclaimerPc, Reclaimer}
use wizard.Hazptr.Holder.{counting, idle, loaded, stored, failed, protecting, leaving}
use wizard.Hazptr.ReclaimerPc.{joining, appending, taken, scanning, deleting}
use wizard.Prelude.Sums.{count}

-- Whether the holder has this record.
abbrev pub owns : ℕ → Holder → ℕ
owns k (counting r) = if r == k then 1 else 0
owns k (idle r) = if r == k then 1 else 0
owns k (loaded r src p) = if r == k then 1 else 0
owns k (stored r src p) = if r == k then 1 else 0
owns k (failed r src p) = if r == k then 1 else 0
owns k (protecting r p) = if r == k then 1 else 0
owns k (leaving r) = if r == k then 1 else 0
owns k _ = 0

abbrev pub activity : Option HazptrRecord → ℕ
activity none = 0
activity (some rec) = if rec.active then 1 else 0

-- The retired objects that a call of a reclaimer has taken and not given on yet.
abbrev pub batch_of : ReclaimerPc → List ℕ
batch_of (joining next batch) = batch
batch_of (appending next batch expected) = batch
batch_of (taken batch) = batch
batch_of (scanning batch k seen) = batch
batch_of (deleting batch seen left) = batch ++ left
batch_of _ = []

abbrev pub keeps : ℕ → Reclaimer → ℕ
keeps p r = count p r.priv_list + count p (batch_of r.pc)

-- A retired object is in one list, every other object in none.
abbrev pub owed : Phase → ℕ
owed retired = 1
owed _ = 0

-- The object is neither given back nor still with its user alone.
abbrev pub in_use : Phase → Bool
in_use (linked src) = true
in_use unlinked = true
in_use retired = true
in_use _ = false
