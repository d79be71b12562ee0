-- ===== src/Scanner/Command.antt =====
-- `build_scan_command`: the command line of a scan that never reaches the network.
use layerscope.Base.{Bool, List, [], ◌∷◌, ◌++◌, if◌then◌else◌}
use layerscope.Base.Text.{Text, text}
use layerscope.Config.{Settings}

-- `for value in values: command.extend([flag, value])`
unfoldable pub option_each : Text → List Text → List Text
option_each flag [] = []
option_each flag (v ∷ vs) = flag ∷ v ∷ option_each flag vs

abbrev pub java_archive_patterns : List Text
java_archive_patterns =
    text "**/*.jar"
    ∷ text "**/*.war"
    ∷ text "**/*.ear"
    ∷ text "**/*.par"
    ∷ text "**/*.jpi"
    ∷ text "**/*.hpi"
    ∷ []

unfoldable pub build_scan_command : Settings → Text → Text → Bool → List Text
unfolding option_each
build_scan_command s image_path raw_path java_db_available =
    (s.trivy_binary
      ∷ text "image"
      ∷ text "--input"
      ∷ image_path
      ∷ text "--format"
      ∷ text "json"
      ∷ text "--output"
      ∷ raw_path
      ∷ text "--scanners"
      ∷ text "vuln"
      ∷ text "--cache-dir"
      ∷ s.trivy_cache_dir
      ∷ text "--no-progress"
      ∷ text "--skip-db-update"
      ∷ text "--skip-java-db-update"
      ∷ text "--skip-vex-repo-update"
      ∷ text "--disable-telemetry"
      ∷ text "--offline-scan"
      ∷ [])
    ++ (option_each (text "--db-repository") s.db_repositories
        ++ (option_each (text "--java-db-repository") s.java_db_repositories
            ++ (if java_db_available
                then []
                else option_each (text "--skip-files") java_archive_patterns)))
