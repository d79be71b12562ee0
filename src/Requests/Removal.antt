-- ===== src/Requests/Removal.antt =====
-- backend/app/main.py: the requests that remove finished scans. `imported` is `is_imported_scan`,
-- `inside` tests a path against the directory of the raw results, and `fails` says for which paths
-- `resolve` or `unlink` raises an `OSError`.
use layerscope.Base.{
  ℕ, ◌≡◌, Bool, false, not, ◌&&◌, List, [], ◌∷◌, ◌++◌, Option, none, some, ◌==◌, any, discard,
  select, if◌then◌else◌,
}
use layerscope.Base.Table
use layerscope.Base.Text.{Text, text, decimal, join}
use layerscope.Models.{is_active, Scan, Finding, Package}
use layerscope.Auth.{Reply, ok, http}
use layerscope.Scanner.{ScanManager, get_scan}

module _ (imported : Scan → Bool) (inside fails : Text → Bool) where
  abbrev pub unlink_result : Scan → Option Text → ScanManager → ScanManager
  unlink_result s none m = m
  unlink_result s (some path) m =
      if not (imported s) && inside path
      then record m { raw_results = discard s.id m.raw_results }
      else m

  abbrev pub delete_rows : ℕ → ScanManager → ScanManager
  delete_rows i m = record m {
    findings = select (λ (f : Finding). not (f.scan_id == i)) m.findings;
    packages = select (λ (p : Package). not (p.scan_id == i)) m.packages;
    scans = select (λ (s : Scan). not (s.id == i)) m.scans;
  }

  abbrev pub unlink_fails : Scan → Option Text → Bool
  unlink_fails s none = false
  unlink_fails s (some path) = not (imported s) && fails path

  -- `remove_scan_record`
  unfoldable pub remove_scan_record : Scan → ScanManager → ScanManager × Reply (Unit {0})
  remove_scan_record s m =
      if is_active s.status
      then (m, http 409 (text "Active scans must be cancelled before removal"))
      else if unlink_fails s s.raw_json_path
      then (m, http 500 (text "The raw scan result could not be removed"))
      else (delete_rows s.id (unlink_result s s.raw_json_path m), ok tt)

  abbrev pub active_ids_of : List Scan → List Text
  active_ids_of [] = []
  active_ids_of (s ∷ scans) =
      let rest = active_ids_of scans in if is_active s.status then decimal s.id ∷ rest else rest

  abbrev pub after_removal :
      ScanManager × Reply (Unit {0})
      → (ScanManager → ScanManager × Reply (Unit {0}))
      → ScanManager × Reply (Unit {0})
  after_removal (m, ok u) next = next m
  after_removal (m, http code message) next = (m, http code message)

  -- The loop ends at the first scan that cannot be removed; the deletions so far are those of a
  -- session that is not committed then.
  abbrev pub remove_all : List Scan → ScanManager → ScanManager × Reply (Unit {0})
  remove_all [] m = (m, ok tt)
  remove_all (s ∷ scans) m = after_removal (remove_scan_record s m) (λ m'. remove_all scans m')

  -- `remove_scan_records`
  unfoldable pub remove_scan_records : List Scan → ScanManager → ScanManager × Reply (Unit {0})
  remove_scan_records scans m =
      if any (λ (s : Scan). is_active s.status) scans
      then (
        m,
        http 409
            (text "Cancel active scans before removal: " ++ join (text ", ") (active_ids_of scans)),
      )
      else remove_all scans m

module _ {A : Type 0} (key : A → ℕ) (i : ℕ) where
  -- The rows that stay when those with a key are deleted.
  abbrev others : A → Bool
  others x = not (key x == i)

-- No row names the scan.
abbrev pub Forgotten : ℕ → ScanManager → Type 0
Forgotten i m =
    (any (λ (f : Finding). f.scan_id == i) m.findings ≡ false)
    × (any (λ (p : Package). p.scan_id == i) m.packages ≡ false)
    × (any (λ (s : Scan). s.id == i) m.scans ≡ false)

-- A scan has the same row, findings and packages in two states.
abbrev pub Same : ℕ → ScanManager → ScanManager → Type 0
Same j m m' =
    (get_scan m' j ≡ get_scan m j)
    × (select (λ (f : Finding). f.scan_id == j) m'.findings
        ≡ select (λ (f : Finding). f.scan_id == j) m.findings)
    × (select (λ (p : Package). p.scan_id == j) m'.packages
        ≡ select (λ (p : Package). p.scan_id == j) m.packages)

-- What a removal may leave: nothing of the scan and all of every other one, or all as it was.
abbrev pub Removed : ℕ → ScanManager → ScanManager → Reply (Unit {0}) → Type 0
Removed i m m' (ok u) = Forgotten i m' × ((j : ℕ) → (i == j) ≡ false → Same j m m')
Removed i m m' (http code message) = m' ≡ m
