-- ===== src/Scanner/Normalize.antt =====
-- `normalized_text`, `package_identifier`, `package_licenses` and `ScanManager.normalize`: the rows
-- that a Trivy result becomes. `safe_url` is `safe_advisory_url`, and `upper` is `str.upper`.
pub mod Rows
use layerscope.Base.{
  ℕ, Bool, true, false, not, ◌&&◌, List, [], ◌∷◌, ◌++◌, Option, none, some, if◌then◌else◌,
}
use layerscope.Base.Text.{Text, text, join, one_of, or_text, nonempty}
use layerscope.Base.Json.{
  Json, null, boolean, number, string, array, object, Items, nil, cons, Fields, get_key, items,
  truthy, or_json, dumps, canonical_style,
}
use Prim.Native.String.{String}
use layerscope.Models.{Finding, Package}

unfoldable pub normalized_text : Json → Text
normalized_text null = []
normalized_text (string s) = s
normalized_text (object fs) = dumps canonical_style (object fs)
normalized_text (array vs) = dumps canonical_style (array vs)
normalized_text (boolean b) = if b then text "True" else text "False"
normalized_text (number n) = n

identifier_text : Json → Text
unfolding normalized_text
identifier_text (object fs) =
    normalized_text
      (or_json (get_key (text "PURL") fs) (or_json (get_key (text "UID") fs) (object fs)))
identifier_text v = normalized_text v

unfoldable pub package_identifier : Fields → Text
unfolding identifier_text
package_identifier pkg =
    identifier_text (or_json (get_key (text "ID") pkg) (get_key (text "Identifier") pkg))

license_texts : Items → List Text
unfolding normalized_text
license_texts nil = []
license_texts (cons v vs) =
    let rest = license_texts vs in
    if nonempty (normalized_text v) then normalized_text v ∷ rest else rest

unfoldable pub package_licenses : Json → Text
unfolding license_texts
package_licenses (array vs) = join (text ", ") (license_texts vs)
package_licenses v = normalized_text v

abbrev pub severities : List Text
severities = text "CRITICAL" ∷ text "HIGH" ∷ text "MEDIUM" ∷ text "LOW" ∷ text "UNKNOWN" ∷ []

-- `severity if severity in SEVERITIES else "UNKNOWN"`
unfoldable pub known_severity : Text → Text
known_severity s = if one_of s severities then s else text "UNKNOWN"

-- `for item in value or []`: a falsy value is an empty sequence. Iterating over an object gives its
-- keys, and over a string its characters; neither is a dict, so those items are skipped.
unfoldable pub sequence : Json → List Json
sequence (array vs) = items vs
sequence v = []

-- A value that `for` cannot iterate over raises a TypeError: a true boolean or a nonzero number.
unfoldable pub iterable : Json → Bool
iterable (boolean b) = not b
iterable (number n) = not (truthy (number n))
iterable v = true

-- `isinstance(item, dict)`: the objects of a sequence, the rest is skipped.
unfoldable pub dicts : List Json → List Fields
dicts [] = []
dicts (object fs ∷ vs) = fs ∷ dicts vs
dicts (_ ∷ vs) = dicts vs

abbrev pub key_text : String → Fields → Text
key_text k fs = normalized_text (get_key (text k) fs)

-- One `Package(…)` row.
unfoldable pub package_row : ℕ → Text → Fields → Package
unfolding normalized_text package_identifier package_licenses
package_row scan_id target pkg = record {
  scan_id = scan_id;
  target = target;
  name = key_text "Name" pkg;
  version = key_text "Version" pkg;
  identifier = package_identifier pkg;
  licenses = package_licenses (get_key (text "Licenses") pkg);
}

unfoldable pub package_rows : ℕ → Text → List Fields → List Package
unfolding package_row
package_rows i target [] = []
package_rows i target (p ∷ ps) = package_row i target p ∷ package_rows i target ps

module _ (upper : Text → Text) (safe_url : Json → Text) where
  -- One `Finding(…)` row.
  unfoldable pub finding_row : ℕ → Text → Fields → Finding
  unfolding normalized_text known_severity
  finding_row scan_id target vuln = record {
    scan_id = scan_id;
    target = target;
    vulnerability_id = or_text (key_text "VulnerabilityID" vuln) (text "UNKNOWN");
    package_name = key_text "PkgName" vuln;
    installed_version = key_text "InstalledVersion" vuln;
    fixed_version = key_text "FixedVersion" vuln;
    severity = known_severity (upper (key_text "Severity" vuln));
    title = key_text "Title" vuln;
    description = key_text "Description" vuln;
    primary_url = safe_url (get_key (text "PrimaryURL") vuln);
  }

  unfoldable pub finding_rows : ℕ → Text → List Fields → List Finding
  unfolding finding_row
  finding_rows i target [] = []
  finding_rows i target (v ∷ vs) = finding_row i target v ∷ finding_rows i target vs

  -- The loop over `Results`; `none` is a TypeError.
  unfoldable pub normalize_results : ℕ → List Fields → Option (List Package × List Finding)
  unfolding package_rows finding_rows sequence iterable dicts normalized_text
  normalize_results i [] = some ([], [])
  normalize_results i (r ∷ rs) =
      let target = key_text "Target" r in
      let ps = get_key (text "Packages") r in
      let vs = get_key (text "Vulnerabilities") r in
      let rest = normalize_results i rs in
      if iterable ps && iterable vs
      then elim rest [
        | none ↦ none
        | some (packages, findings) ↦ some (
          package_rows i target (dicts (sequence ps)) ++ packages,
          finding_rows i target (dicts (sequence vs)) ++ findings,
        )
      ]
      else none

  -- `payload.get` of a payload that is no object raises an AttributeError.
  unfoldable pub normalize : Json → ℕ → Option (List Package × List Finding)
  unfolding normalize_results
  normalize (object payload) i =
      let results = get_key (text "Results") payload in
      if iterable results then normalize_results i (dicts (sequence results)) else none
  normalize _ i = none
