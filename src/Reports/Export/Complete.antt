-- ===== src/Reports/Export/Complete.antt =====
-- What the selection of a group export promises of the members of the groups and of their scans.
use layerscope.Base.{ℕ, Bool, not, List, length, select}
use layerscope.Models.{ImageArchive}
use layerscope.Groups.{GroupDb}
use layerscope.Groups.Payload.Latest.{Latest}
use layerscope.Reports.Export.{has_scan}

module _ (name_before : ImageArchive → ImageArchive → Bool) where
  module _ (db : GroupDb) where
    unfoldable without_scan : List ImageArchive → ℕ
    without_scan images = length (select (λ (a : ImageArchive). not (has_scan db a)) images)
