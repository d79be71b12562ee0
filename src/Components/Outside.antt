-- ===== src/Components/Outside.antt =====
-- What a maintenance job meets outside: the databases' directories, the registries, the Trivy
-- process, and what the other tasks do while the worker is suspended.
use layerscope.Base.{
  ℕ, Bool, true, false, ◌||◌, List, [], ◌∷◌, Option, none, some, ◌==◌, leb, if◌then◌else◌,
}
use layerscope.Base.Json.{Json, object, get_key, truthy, Fields, end}
use layerscope.Base.Text.{Text, text, replace}
use layerscope.Models.{Time, Component}
use layerscope.Scanner.Outside.{Answer, gives, throws, Exit, error}
use layerscope.Components.{ComponentManager}

-- A `datetime`: its instant, and whether it has a time zone.
pub record Moment : Type 0 where
  pub at : Time
  pub aware : Bool

-- `metadata.json`: absent, not readable as JSON, or a value.
pub data Metadata : Type 0 where
  absent unreadable undecodable : Metadata
  readable : Json → Metadata

-- The suspensions of a job.
pub data Await : Type 0 where
  registry_wait lock_wait spawn_wait exit_wait : Await
  line_wait : ℕ → Await

pub record Outside : Type 0 where
  pub meanwhile : Await → ComponentManager → ComponentManager
  pub interrupts : Await → Bool
  -- The registry's status code, or none for an `httpx.HTTPError`, by its host; another exception, as
  -- for an invalid URL, is thrown.
  pub registry : Text → Answer (Option ℕ)
  pub workspace : Answer (Unit {0})
  pub spawn : Answer (Unit {0})
  pub output : List Text
  pub exit : Exit
  -- The database's directory before and after the process.
  pub metadata : Component → Metadata
  pub size_bytes : Component → ℕ
  -- `str(value)` of a parsed value, `str(moment)`, and `datetime.fromisoformat`.
  pub str : Json → Text
  pub show_moment : Moment → Text
  pub fromisoformat : Text → Option Moment

-- `parse_time`
unfoldable pub parse_time : Outside → Json → Option Moment
parse_time o value =
    if truthy value
    then o.fromisoformat (replace (text "Z") (text "+00:00") (o.str value))
    else none

-- The keys of `database_info` that the manager reads.
pub record DatabaseInfo : Type 0 where
  pub installed : Bool
  pub updated_at : Option Moment
  pub next_update : Option Moment
  pub update_available : Bool
  pub size_bytes : ℕ

-- `next_update and next_update <= utcnow()`: a moment without a time zone cannot be compared.
unfoldable pub overdue : Time → Option Moment → Answer Bool
overdue now none = gives false
overdue now (some t) =
    if t.aware
    then gives (leb t.at now)
    else throws
        (error (text "TypeError") (text "can't compare offset-naive and offset-aware datetimes"))

abbrev pub info_of : Bool → Option Moment → Option Moment → ℕ → Answer Bool → Answer DatabaseInfo
info_of installed updated next size (throws e) = throws e
info_of installed updated next size (gives b) = gives (record {
  installed = installed;
  updated_at = updated;
  next_update = next;
  update_available = b;
  size_bytes = size;
})

abbrev pub info_from : Outside → Time → Bool → ℕ → Fields → Answer DatabaseInfo
info_from o now installed size metadata =
    let next = parse_time o (get_key (text "NextUpdate") metadata) in
    let updated = parse_time o (get_key (text "UpdatedAt") metadata) in
    info_of installed updated next size (overdue now next)

-- `database_info`
unfoldable pub database_info : Outside → Time → ℕ → Metadata → Answer DatabaseInfo
database_info o now size absent = info_from o now false size end
database_info o now size unreadable = info_from o now true size end
database_info o now size undecodable =
    throws (error (text "UnicodeDecodeError") (text "the metadata is not UTF-8"))
database_info o now size (readable (object fs)) = info_from o now true size fs
database_info o now size (readable _) =
    throws (error (text "AttributeError") (text "the metadata has no attribute 'get'"))

-- `repository.split("/", 1)[0]`
unfoldable pub host_of : Text → Text
host_of [] = []
host_of (c ∷ s) = let rest = host_of s in if c == b'/' then [] else c ∷ rest

abbrev pub is_reachable : Option ℕ → Bool
is_reachable none = false
is_reachable (some code) = code == 200 || code == 401

abbrev pub after_status : Answer (Option ℕ) → Answer Bool → Answer Bool
after_status (throws e) rest = throws e
after_status (gives status) rest = if is_reachable status then gives true else rest

-- `registry_reachable`
unfoldable pub registry_reachable : (Text → Answer (Option ℕ)) → List Text → Answer Bool
unfolding host_of
registry_reachable get [] = gives false
registry_reachable get (repository ∷ rest) =
    after_status (get (host_of repository)) (registry_reachable get rest)
