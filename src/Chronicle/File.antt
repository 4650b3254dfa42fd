-- ===== src/Chronicle/File.antt =====
-- `Load` and `Save` of internal/chronicle/chronicle.go, and `ChronicleYaml.Load` of
-- internal/repository/yaml/chronicle_yaml.go. The YAML library is a parameter.
use narrative_ai_agent.Prelude.{◌≡◌, List, [], if◌then◌else◌, Result, ok, err, All, map}
use narrative_ai_agent.Prelude.Text.{Text, is_empty, trim_space}
use narrative_ai_agent.Chronicle.{
  Period, DayEntry, Chronicle, ChronicleError, not_found, yaml_unmarshal, yaml_marshal,
}

pub record ChronicleFile : Type 0 where
  pub file_periods : List Period
  pub file_days : List DayEntry

unfoldable pub trim_period : Period → Period
trim_period p = record p { memory = trim_space p.memory }

unfoldable pub trim_day : DayEntry → DayEntry
trim_day d = record d { text = trim_space d.text }

abbrev pub of_file : ChronicleFile → Chronicle
of_file f = record { periods = map trim_period f.file_periods; days = map trim_day f.file_days }

abbrev pub to_file : Chronicle → ChronicleFile
to_file c = record { file_periods = c.periods; file_days = c.days }

module _ (marshal : ChronicleFile → Result Text Text)
    (unmarshal : Text → Result Text ChronicleFile) where
  unfoldable pub load : Text → Result ChronicleError Chronicle
  unfolding trim_period trim_day
  load body =
      if is_empty (trim_space body)
      then err not_found
      else elim (unmarshal body) [ ok raw ↦ ok (of_file raw) | err e ↦ err (yaml_unmarshal e) ]

  unfoldable pub save : Chronicle → Result ChronicleError Text
  save c = elim (marshal (to_file c)) [ ok body ↦ ok body | err e ↦ err (yaml_marshal e) ]

  -- A missing file is read as the empty text, and is an empty chronicle.
  unfoldable pub load_or_empty : Text → Result ChronicleError Chronicle
  unfolding load
  load_or_empty body =
      if is_empty (trim_space body) then ok (record { periods = []; days = [] }) else load body

-- No text of the chronicle has white space around it.
pub record IsTrimmed (c : Chronicle) : Type 0 where
  pub memories : All (λ p. trim_space p.memory ≡ p.memory) c.periods
  pub texts : All (λ d. trim_space d.text ≡ d.text) c.days
